-- ===== src/Profiles/Web.antt =====
-- cloudmark/profiles.py: WEB_PROFILES, as the dictionary that it is.
use cloud_mark.Prelude.{ℕ, Bool, List, [], ◌∷◌, String, true, false, pos}
use cloud_mark.Python.{Value, Fields, bool, int, str, list, dict, nil, cons, end, field}

abbrev http_job :
    (name : String)
    → (scheme : String) → (path : String) → (concurrency : ℕ) → (duration : ℕ) → (warmup : ℕ)
    → (keep_alive : Bool) → Value
http_job name scheme path concurrency duration warmup keep_alive = dict (
    field "name" (str name) (
      field "scheme" (str scheme) (
        field "path" (str path) (
          field "concurrency" (int (pos concurrency)) (
            field "duration" (int (pos duration))
              (field "warmup" (int (pos warmup)) (field "keep_alive" (bool keep_alive) end)))))))

abbrev http2_job :
    (name : String)
    → (scheme : String) → (path : String) → (clients : ℕ) → (threads : ℕ) → (streams : ℕ)
    → (requests : ℕ) → Value
http2_job name scheme path clients threads streams requests = dict (
    field "name" (str name) (
      field "scheme" (str scheme) (
        field "path" (str path) (
          field "clients" (int (pos clients)) (
            field "threads" (int (pos threads))
              (field "streams" (int (pos streams)) (field "requests" (int (pos requests)) end)))))))

abbrev pub web_peer_quick : Fields
web_peer_quick = field "label" (str "Web & TLS Peer Quick") (
    field "description"
      (str
        "Short HTTP, HTTPS, keep-alive, TLS connection, JSON, and static-transfer baseline between paired Agents.")
      (field "estimated_minutes" (int (pos 4)) (
        field "requires_agents" (int (pos 2)) (
          field "engine" (str "nginx") (
            field "http_port" (int (pos 58080)) (
              field "https_port" (int (pos 58443)) (
                field "profile_version" (str "1.0") (
                  field "methodology_version" (str "web-http-v1") (
                    field "jobs"
                      (list (
                        cons (http_job "http-api-c1" "http" "/api/v1/record" 1 15 2 true) (
                          cons (http_job "http-api-c16" "http" "/api/v1/record" 16 20 2 true) (
                            cons (http_job "https-api-c16" "https" "/api/v1/record" 16 20 2 true) (
                              cons (http_job "https-handshake-c4" "https" "/health" 4 15 2 false) (
                                cons
                                  (http_job "http-asset-256k-c4" "http" "/assets/256k.bin" 4 20 2
                                    true)
                                  nil))))))
                      end)))))))))

abbrev pub web_peer_standard : Fields
web_peer_standard = field "label" (str "Web & TLS Peer Standard") (
    field "description"
      (str
        "HTTP/TLS concurrency curves, connection churn, static transfer, a bundled dynamic application behind Nginx, Generator CPU headroom, and fixed HTTP/2 negotiation evidence.")
      (field "estimated_minutes" (int (pos 11)) (
        field "requires_agents" (int (pos 2)) (
          field "engine" (str "nginx") (
            field "http_port" (int (pos 58080)) (
              field "https_port" (int (pos 58443)) (
                field "profile_version" (str "2.0") (
                  field "methodology_version" (str "web-http-v2") (
                    field "jobs"
                      (list (
                        cons (http_job "http-api-c1" "http" "/api/v1/record" 1 30 3 true) (
                          cons (http_job "http-api-c16" "http" "/api/v1/record" 16 40 3 true) (
                            cons (http_job "http-api-c64" "http" "/api/v1/record" 64 45 3 true) (
                              cons (http_job "https-api-c16" "https" "/api/v1/record" 16 40 3 true)
                                (cons
                                  (http_job "https-api-c64" "https" "/api/v1/record" 64 45 3 true)
                                  (cons
                                    (http_job "https-handshake-c4" "https" "/health" 4 30 3 false)
                                    (cons
                                      (http_job "http-asset-256k-c4" "http" "/assets/256k.bin" 4 35
                                        3 true)
                                      (cons
                                        (http_job "http-asset-256k-c16" "http" "/assets/256k.bin" 16
                                          40 3 true)
                                        (cons
                                          (http_job "https-asset-256k-c8" "https" "/assets/256k.bin"
                                            8 40 3 true)
                                          (cons
                                            (http_job "http-dynamic-c1" "http" "/api/v2/dynamic" 1
                                              30 3 true)
                                            (cons
                                              (http_job "http-dynamic-c16" "http" "/api/v2/dynamic"
                                                16 40 3 true)
                                              (cons
                                                (http_job "http-dynamic-c64" "http"
                                                  "/api/v2/dynamic" 64 45 3 true)
                                                nil)))))))))))))
                      (field "protocol_probes"
                        (list (
                          cons
                            (dict (
                              field "name" (str "https-dynamic-http2-negotiation") (
                                field "scheme" (str "https")
                                  (field "path" (str "/api/v2/dynamic") end))))
                            nil))
                        end))))))))))

abbrev pub web_peer_http2 : Fields
web_peer_http2 = field "label" (str "HTTP/2 Multiplexed Load") (
    field "description"
      (str
        "Fixed HTTPS/HTTP2 dynamic workloads with connection and stream scaling, exact request-log P50/P95/P99, Generator CPU validity, and cleanup.")
      (field "estimated_minutes" (int (pos 7)) (
        field "requires_agents" (int (pos 2)) (
          field "engine" (str "nginx-http2") (
            field "http_port" (int (pos 58080)) (
              field "https_port" (int (pos 58443)) (
                field "profile_version" (str "1.0") (
                  field "methodology_version" (str "web-http2-load-v1") (
                    field "jobs"
                      (list (
                        cons (http2_job "h2-dynamic-c1-m1" "https" "/api/v2/dynamic" 1 1 1 2000) (
                          cons
                            (http2_job "h2-dynamic-c8-m16" "https" "/api/v2/dynamic" 8 2 16 10000)
                            (cons
                              (http2_job "h2-dynamic-c32-m32" "https" "/api/v2/dynamic" 32 4 32
                                20000)
                              nil))))
                      end)))))))))

abbrev pub web_profiles : List (String × Fields)
web_profiles =
    ("web-peer-quick", web_peer_quick)
    ∷ ("web-peer-standard", web_peer_standard)
    ∷ ("web-peer-http2", web_peer_http2)
    ∷ []
