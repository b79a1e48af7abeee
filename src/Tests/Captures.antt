-- ===== src/Tests/Captures.antt =====
-- A capture of three packets.
use mutation_framework.Base.{List, [], ◌∷◌, none, some, ◌≡◌, refl}
use mutation_framework.Base.Text.{Text, codes}
use mutation_framework.Runner.{lookup}
use mutation_framework.Capture.{Packet, process_packets}
use mutation_framework.Capture.Laws.{packets_from, packets_to, stats_of, process_packets_lem}

abbrev packet : Text → Text → Packet
packet src dst = record { ip_layer = some (src, dst); tcp_layer = some (codes "80", codes "443") }

abbrev packets : List Packet
packets =
    packet (codes "10.0.0.1") (codes "10.0.0.2")
    ∷ packet (codes "10.0.0.1") (codes "10.0.0.1")
    ∷ record { ip_layer = none; tcp_layer = none }
    ∷ []

three_packets :
    lookup (codes "10.0.0.1:80") (process_packets packets [])
    ≡ some (record { src_count = 2; dst_count = 0 })
unfolding process_packets
three_packets = refl

process_packets_lem_example :
    lookup (codes "10.0.0.1:80") (process_packets packets [])
    ≡ stats_of
        (packets_from (codes "10.0.0.1:80") packets)
        (packets_to (codes "10.0.0.1:80") packets)
process_packets_lem_example = process_packets_lem (codes "10.0.0.1:80") packets
