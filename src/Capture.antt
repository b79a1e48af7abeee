-- ===== src/Capture.antt =====
-- The statistics of a network capture (compositions/compositions.go): processPacket, and the
-- packets that ProcessPackets reads from the channel until it is stopped, in their order. The
-- texts of addresses and ports are what gopacket gives.
pub mod Laws
use mutation_framework.Base.{ℕ, suc, List, [], ◌∷◌, ◌++◌, Option, none, some}
use mutation_framework.Base.Text.{Text}
use mutation_framework.Runner.{lookup, insert}

pub record NodeStats : Type 0 where
  pub src_count : ℕ
  pub dst_count : ℕ

-- The source and the destination in the IPv4 layer and in the TCP layer, where there is one.
pub record Packet : Type 0 where
  pub ip_layer : Option (Text × Text)
  pub tcp_layer : Option (Text × Text)

unfoldable pub get_node_string : Text → Text → Text
get_node_string ip port = ip ++ b':' ∷ port

-- Without the layer both texts are empty.
abbrev layer_texts : Option (Text × Text) → Text × Text
layer_texts none = ([], [])
layer_texts (some texts) = texts

unfoldable pub src_node : Packet → Text
unfolding get_node_string
src_node packet =
    get_node_string ((layer_texts packet.ip_layer).0) ((layer_texts packet.tcp_layer).0)

unfoldable pub dst_node : Packet → Text
unfolding get_node_string
dst_node packet =
    get_node_string ((layer_texts packet.ip_layer).1) ((layer_texts packet.tcp_layer).1)

abbrev pub count_src : Option NodeStats → NodeStats
count_src none = record { src_count = 1; dst_count = 0 }
count_src (some ns) = record ns { src_count = suc ns.src_count }

abbrev pub count_dst : Option NodeStats → NodeStats
count_dst none = record { src_count = 0; dst_count = 1 }
count_dst (some ns) = record ns { dst_count = suc ns.dst_count }

unfoldable pub add_src : Text → List (Text × NodeStats) → List (Text × NodeStats)
unfolding lookup insert
add_src src stats = insert src (count_src (lookup src stats)) stats

unfoldable pub add_dst : Text → List (Text × NodeStats) → List (Text × NodeStats)
unfolding lookup insert
add_dst dst stats = insert dst (count_dst (lookup dst stats)) stats

unfoldable pub process_packet : Packet → List (Text × NodeStats) → List (Text × NodeStats)
unfolding add_src add_dst src_node dst_node
process_packet packet stats = add_dst (dst_node packet) (add_src (src_node packet) stats)

unfoldable pub process_packets : List Packet → List (Text × NodeStats) → List (Text × NodeStats)
unfolding process_packet
process_packets [] stats = stats
process_packets (packet ∷ packets) stats = process_packets packets (process_packet packet stats)
