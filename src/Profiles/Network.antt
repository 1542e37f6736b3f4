-- ===== src/Profiles/Network.antt =====
-- cloudmark/profiles.py: NETWORK_PROFILES, as the dictionary that it is.
use cloud_mark.Prelude.{List, [], ◌∷◌, String, true, false, fraction, pos}
use cloud_mark.Python.{Fields, null, bool, int, float, str, list, dict, nil, cons, end, field}

abbrev pub network_peer_quick : Fields
network_peer_quick = field "label" (str "Provider Peer Quick") (
    field "description"
      (str "Short TCP measurements in both directions between paired provider agents.")
      (field "requires_agents" (int (pos 2)) (
        field "directions"
          (list (cons (str "generator-to-target") (cons (str "target-to-generator") nil)))
          (field "tcp_streams" (list (cons (int (pos 1)) (cons (int (pos 4)) nil))) (
            field "duration_seconds" (int (pos 10)) (
              field "latency" null (
                field "udp_rate_fractions" (list nil) (
                  field "bidirectional_streams" null (
                    field "cloud_to_controller" (bool false) (
                      field "profile_version" (str "1.0")
                        (field "methodology_version" (str "network-v1") end)))))))))))

abbrev pub network_peer_standard : Fields
network_peer_standard = field "label" (str "Provider Internal Network") (
    field "description"
      (str
        "Pre/post peer route, bounded path-trace, aggregate and driver-exposed per-queue counters, NIC, TCP-control, MTU, system-resolver, and guest-visible RSS/RPS/XPS/IRQ affinity evidence; TCP scaling; idle latency; loaded TCP RTT; adaptive UDP loss/jitter sweeps; simultaneous bidirectional throughput; and Generator-headroom validation.")
      (field "requires_agents" (int (pos 2)) (
        field "directions"
          (list (cons (str "generator-to-target") (cons (str "target-to-generator") nil)))
          (field "tcp_streams"
            (list (
              cons (int (pos 1))
                (cons (int (pos 4)) (cons (int (pos 8)) (cons (int (pos 16)) nil)))))
            (field "duration_seconds" (int (pos 15)) (
              field "latency"
                (dict (
                  field "count" (int (pos 20)) (
                    field "interval_ms" (int (pos 100)) (field "timeout_ms" (int (pos 1000)) end))))
                (field "udp_rate_fractions"
                  (list (
                    cons (float (fraction (pos 1) 3))
                      (cons (float (fraction (pos 1) 1)) (cons (float (fraction (pos 9) 9)) nil))))
                  (field "udp_min_rate_bps" (int (pos 1000000)) (
                    field "udp_max_rate_bps" (int (pos 1000000000)) (
                      field "udp_duration_seconds" (int (pos 15)) (
                        field "bidirectional_streams" (int (pos 4)) (
                          field "bidirectional_duration_seconds" (int (pos 15)) (
                            field "path_probe" (bool true) (
                              field "post_path_probe" (bool true) (
                                field "resolver_probe" (bool true) (
                                  field "steering_probe" (bool true) (
                                    field "generator_cpu_limit_percent" (int (pos 90)) (
                                      field "generator_scaling_cpu_floor_percent" (int (pos 85)) (
                                        field "generator_scaling_gain_floor_percent" (int (pos 5)) (
                                          field "cloud_to_controller" (bool false) (
                                            field "profile_version" (str "9.0") (
                                              field "methodology_version" (str "network-v9")
                                                end))))))))))))))))))))))

abbrev pub network_profiles : List (String × Fields)
network_profiles =
    ("network-peer-quick", network_peer_quick)
    ∷ ("network-peer-standard", network_peer_standard)
    ∷ []
