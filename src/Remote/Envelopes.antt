-- ===== src/Remote/Envelopes.antt =====
-- cloudmark/remote.py: what an accepted envelope holds.
use cloud_mark.Prelude.{Option, none, some, ◌≡◌, sym, ◌∙◌, ap, Bool-cases, inl, inr}
use cloud_mark.Python.{
  end, field, truthy, or_else, Value, Fields, dict, get_field, ok, ok_injective, Platform,
}
use cloud_mark.Store.Schema.{Task}
use cloud_mark.Remote.Results.{open_benchmark, open_envelope, result_or_empty, envelope}

open_benchmark-carries :
    (source payload benchmark : Fields) (v : Value)
    → open_benchmark source v ≡ ok (payload, benchmark)
    → (source ≡ payload) × (v ≡ dict benchmark)
open_benchmark-carries source payload benchmark (dict found) e =
    (ap (λ p. p.0) (ok_injective e), ap (λ p. dict p.1) (ok_injective e))
open_benchmark-carries source payload benchmark _ e = let never : ⊥ = cc in absurd never

open_envelope-carries :
    (payload benchmark : Fields) (v : Value)
    → open_envelope v ≡ ok (payload, benchmark)
    → (v ≡ dict payload) × (get_field "benchmark" payload ≡ dict benchmark)
open_envelope-carries payload benchmark (dict source) e =
    let (same, carried) =
      open_benchmark-carries source payload benchmark (get_field "benchmark" source) e in
    (ap dict same, ap (get_field "benchmark") (sym same) ∙ carried)
open_envelope-carries payload benchmark _ e = let never : ⊥ = cc in absurd never

no_benchmark :
    (payload benchmark : Fields)
    → dict end ≡ dict payload
    → get_field "benchmark" payload ≡ dict benchmark
    → ⊥
unfolding get_field
no_benchmark end benchmark same carried = cc
no_benchmark (field k v fs) benchmark same carried = cc

-- An envelope with a benchmark is not empty, so it is the result itself.
brought_by :
    (payload benchmark : Fields) (r : Option Value)
    → result_or_empty r ≡ dict payload
    → get_field "benchmark" payload ≡ dict benchmark
    → r ≡ some (dict payload)
unfolding or_else
brought_by payload benchmark none same carried =
    absurd (no_benchmark payload benchmark same carried)
brought_by payload benchmark (some v) same carried = elim (Bool-cases (truthy v)) [
  | inl there ↦ ap some (rw there at same)
  | inr empty ↦ absurd (no_benchmark payload benchmark (rw empty at same) carried)
]

pub envelope-carries :
    (py : Platform) (t : Task) (payload benchmark : Fields)
    → envelope py t ≡ ok (payload, benchmark)
    → (t.result ≡ some (dict payload)) × (get_field "benchmark" payload ≡ dict benchmark)
unfolding envelope
envelope-carries py t payload benchmark e =
    let (same, carried) = open_envelope-carries payload benchmark (result_or_empty t.result) e in
    (brought_by payload benchmark t.result same carried, carried)
