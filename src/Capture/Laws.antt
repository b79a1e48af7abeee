-- ===== src/Capture/Laws.antt =====
-- What the statistics of a capture count.
use mathlib.Core.Path.{ap₂}
use mutation_framework.Base.{
  ℕ, zero, suc, ◌+◌, true, Bool, List, [], ◌∷◌, Option, none, some, ◌≡◌, refl, ap, ◌∙◌,
  if◌then◌else◌, Bool-cases, inl, inr, arith,
}
use mutation_framework.Base.Text.{Text, text_eq, text_eq_sound}
use mutation_framework.Runner.{lookup, insert}
use mutation_framework.Runner.Redundant.Laws.{lookup-insert}
use mutation_framework.Capture.{
  NodeStats, Packet, src_node, dst_node, count_src, count_dst, add_src, add_dst, process_packet,
  process_packets,
}

-- How many packets come from a node, and how many go to it.
pub packets_from : Text → List Packet → ℕ
packets_from node [] = 0
packets_from node (packet ∷ packets) =
    (if text_eq (src_node packet) node then 1 else 0) + packets_from node packets

pub packets_to : Text → List Packet → ℕ
packets_to node [] = 0
packets_to node (packet ∷ packets) =
    (if text_eq (dst_node packet) node then 1 else 0) + packets_to node packets

-- No entry for a node without packets.
abbrev pub stats_of : ℕ → ℕ → Option NodeStats
stats_of zero zero = none
stats_of (suc a) b = some (record { src_count = suc a; dst_count = b })
stats_of zero (suc b) = some (record { src_count = 0; dst_count = suc b })

count_src-stats_of : (a b : ℕ) → some (count_src (stats_of a b)) ≡ stats_of (suc a) b
count_src-stats_of zero zero = refl
count_src-stats_of (suc a) b = refl
count_src-stats_of zero (suc b) = refl

count_dst-stats_of : (a b : ℕ) → some (count_dst (stats_of a b)) ≡ stats_of a (suc b)
count_dst-stats_of zero zero = refl
count_dst-stats_of (suc a) b = refl
count_dst-stats_of zero (suc b) = refl

one_more : (n : ℕ) → suc n ≡ 1 + n
one_more n = omega arith

no_more : (n : ℕ) → n ≡ 0 + n
no_more n = omega arith

stats_of-eq : {a a' b b' : ℕ} → a ≡ a' → b ≡ b' → stats_of a b ≡ stats_of a' b'
stats_of-eq e d = ap₂ stats_of e d

lookup-add_src :
    (node src : Text) (m : List (Text × NodeStats)) (a b : ℕ)
    → lookup node m ≡ stats_of a b
    → lookup node (add_src src m) ≡ stats_of ((if text_eq src node then 1 else 0) + a) b
unfolding add_src
lookup-add_src node src m a b h = elim (Bool-cases (text_eq src node)) [
  | inl e ↦ rw e (written e ∙ here e ∙ ap (λ k. stats_of k b) (one_more a))
  | inr e ↦ rw e (written e ∙ h ∙ ap (λ k. stats_of k b) (no_more a))
]
  where
    written :
        {t : Bool}
        → text_eq src node ≡ t
        → lookup node (insert src (count_src (lookup src m)) m)
          ≡ (if t then some (count_src (lookup src m)) else lookup node m)
    written e =
        lookup-insert src node (count_src (lookup src m)) m
        ∙ ap (λ t. if t then some (count_src (lookup src m)) else lookup node m) e

    here : text_eq src node ≡ true → some (count_src (lookup src m)) ≡ stats_of (suc a) b
    here e = rw (text_eq_sound src node e, h) (count_src-stats_of a b)

lookup-add_dst :
    (node dst : Text) (m : List (Text × NodeStats)) (a b : ℕ)
    → lookup node m ≡ stats_of a b
    → lookup node (add_dst dst m) ≡ stats_of a ((if text_eq dst node then 1 else 0) + b)
unfolding add_dst
lookup-add_dst node dst m a b h = elim (Bool-cases (text_eq dst node)) [
  | inl e ↦ rw e (written e ∙ here e ∙ ap (λ k. stats_of a k) (one_more b))
  | inr e ↦ rw e (written e ∙ h ∙ ap (λ k. stats_of a k) (no_more b))
]
  where
    written :
        {t : Bool}
        → text_eq dst node ≡ t
        → lookup node (insert dst (count_dst (lookup dst m)) m)
          ≡ (if t then some (count_dst (lookup dst m)) else lookup node m)
    written e =
        lookup-insert dst node (count_dst (lookup dst m)) m
        ∙ ap (λ t. if t then some (count_dst (lookup dst m)) else lookup node m) e

    here : text_eq dst node ≡ true → some (count_dst (lookup dst m)) ≡ stats_of a (suc b)
    here e = rw (text_eq_sound dst node e, h) (count_dst-stats_of a b)

lookup-process_packets :
    (node : Text) (packets : List Packet) (m : List (Text × NodeStats)) (a b : ℕ)
    → lookup node m ≡ stats_of a b
    → lookup node (process_packets packets m)
      ≡ stats_of (packets_from node packets + a) (packets_to node packets + b)
unfolding process_packets process_packet packets_from packets_to
lookup-process_packets node [] m a b h = h ∙ stats_of-eq (omega arith) (omega arith)
lookup-process_packets node (packet ∷ packets) m a b h =
    lookup-process_packets node packets (add_dst (dst_node packet) (add_src (src_node packet) m)) _
      _
      (lookup-add_dst node (dst_node packet) (add_src (src_node packet) m) _ b
        (lookup-add_src node (src_node packet) m a b h))
    ∙ stats_of-eq (omega arith) (omega arith)

-- After any packets, the entry of a node counts those that come from it and those that go to it,
-- and there is none for a node without packets.
pub process_packets_lem :
    (node : Text) (packets : List Packet)
    → lookup node (process_packets packets [])
      ≡ stats_of (packets_from node packets) (packets_to node packets)
unfolding lookup
process_packets_lem node packets =
    lookup-process_packets node packets [] 0 0 refl ∙ stats_of-eq (omega arith) (omega arith)
