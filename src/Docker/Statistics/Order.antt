-- ===== src/Docker/Statistics/Order.antt =====
-- A HashMap gives its values in any order: the statistics of src/docker_repo/stats.rs do not depend
-- on it.
use mathlib.Core.List.Perm
use mathlib.Core.List.{Perm, foldr}
use homeserver_rust.Prelude.{ℕ, ◌≡◌, refl, sym, ap, ◌∙◌, List, [], ◌∷◌, Option, some, String, arith}
use homeserver_rust.Float.{Float}
use homeserver_rust.Docker.Statistics.{
  NetworkAnswer, NetworkTotals, StatsAnswer, plus, add_network, network_totals, no_networks,
  statistics, process_statistics,
}

plus-plus : (x : ℕ) (v w : Option ℕ) → plus (plus x v) w ≡ plus (plus x w) v
unfolding plus
plus-plus x v w = omega arith

add_network-add_network :
    (t : NetworkTotals) (v w : NetworkAnswer)
    → add_network (add_network t v) w ≡ add_network (add_network t w) v
unfolding add_network
add_network-add_network t v w = λ i. record {
  rx_bytes = plus-plus t.rx_bytes v.rx_bytes w.rx_bytes i;
  tx_bytes = plus-plus t.tx_bytes v.tx_bytes w.tx_bytes i;
  rx_packets = plus-plus t.rx_packets v.rx_packets w.rx_packets i;
  tx_packets = plus-plus t.tx_packets v.tx_packets w.tx_packets i;
  rx_errors = plus-plus t.rx_errors v.rx_errors w.rx_errors i;
  tx_errors = plus-plus t.tx_errors v.tx_errors w.tx_errors i;
  rx_dropped = plus-plus t.rx_dropped v.rx_dropped w.rx_dropped i;
  tx_dropped = plus-plus t.tx_dropped v.tx_dropped w.tx_dropped i;
}

NetworkTotals-IsSet : IsSet NetworkTotals
NetworkTotals-IsSet = hlevel

network_totals-add_network :
    (t : NetworkTotals) (v : NetworkAnswer) (rest : List NetworkAnswer)
    → network_totals (add_network t v) rest ≡ add_network (network_totals t rest) v
unfolding network_totals
network_totals-add_network t v [] = refl
network_totals-add_network t v (w ∷ rest) =
    ap (λ u. network_totals u rest) (add_network-add_network t v w)
    ∙ network_totals-add_network (add_network t w) v rest

network_totals-foldr :
    (t : NetworkTotals) (vs : List NetworkAnswer)
    → network_totals t vs ≡ foldr (λ v u. add_network u v) t vs
unfolding network_totals
network_totals-foldr t [] = refl
network_totals-foldr t (v ∷ rest) =
    network_totals-add_network t v rest ∙ ap (λ u. add_network u v) (network_totals-foldr t rest)

network_totals-Perm :
    (t : NetworkTotals) (vs ws : List NetworkAnswer)
    → Perm vs ws
    → network_totals t vs ≡ network_totals t ws
network_totals-Perm t vs ws p =
    network_totals-foldr t vs
    ∙ Perm.foldr-eq NetworkTotals-IsSet (λ v u. add_network u v)
        (λ v w u. add_network-add_network u w v) p t
    ∙ sym (network_totals-foldr t ws)

module _ {F : Type 0} ⦃f : Float F⦄ where
  -- The statistics of a container are the same in whatever order the map of its interfaces gives
  -- its values: if two answers differ only by a permutation of them, either both lack one of the
  -- four parts of the processor's statistics and give none, or both give the same.
  pub process_statistics-Perm :
      (s : StatsAnswer) (vs ws : List NetworkAnswer) (id name : String)
      → Perm vs ws
      → process_statistics {F = F} (record s { networks = some vs }) id name
        ≡ process_statistics {F = F} (record s { networks = some ws }) id name
  unfolding process_statistics statistics
  process_statistics-Perm s vs ws id name p = rw (network_totals-Perm no_networks vs ws p) refl
