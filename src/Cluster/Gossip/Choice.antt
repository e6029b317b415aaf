-- ===== src/Cluster/Gossip/Choice.antt =====
-- The choice of a peer to ping (internal/cluster/gossip.go).
use mathlib.Core.List.{Mem, mem-cons_self, mem-cons_of_mem}
use text.Mathlib.TextEquality.{eq_iff}
use high_performance_kv_stor.Prelude.{
  ℕ, zero, suc, ◌<◌, ◌≤◌, ◌^◌, ◌-◌, ◌%◌, ltb, lt→ltb, ltb→lt, ltb→ge, ◌≡◌, ◌≢◌, refl, sym, ◌∙◌, ap,
  ◌||◌, ◌⊎◌, List, [], ◌∷◌, some, arith, All, length, string_eq, ◌==◌, Bool-cases, inl, inr,
}
use mathlib.Core.Path.{subst}
use native.Mathlib.Nat.{pow-suc, mod-lt, mod-eq_of_lt}
use high_performance_kv_stor.Prelude.Int.{ℤ, pos, negsuc, sub_ℕ}
use high_performance_kv_stor.Cluster.Peer.{Peer, PeerManager, get_all, state_dead}
use high_performance_kv_stor.Cluster.Gossip.{
  GossipManager, candidates, nth, pick, tick, nobody, target, index_panics, at_index, to_int,
  signed, rem,
}

-- A peer that a tick may ping: one of these, not the node itself and not dead.
pub record IsTarget (gm : GossipManager) (peers : List Peer) (p : Peer) : Type 0 where
  pub known : Mem p peers
  pub other : p.node_id ≢ gm.node_id
  pub live : p.state ≢ state_dead

IsTarget-cons :
    {gm : GossipManager} {peers : List Peer} (q : Peer) {p : Peer}
    → IsTarget gm peers p
    → IsTarget gm (q ∷ peers) p
IsTarget-cons q t = record { known = mem-cons_of_mem q t.known; other = t.other; live = t.live }

All-cons :
    (gm : GossipManager) (peers found : List Peer) (q : Peer)
    → All (IsTarget gm peers) found
    → All (IsTarget gm (q ∷ peers)) found
All-cons gm peers [] q h = tt
All-cons gm peers (p ∷ found) q h = (IsTarget-cons q h.0, All-cons gm peers found q h.1)

candidates-IsTarget :
    (gm : GossipManager) (peers : List Peer) → All (IsTarget gm peers) (candidates gm peers)
unfolding candidates
candidates-IsTarget gm [] = tt
candidates-IsTarget gm (p ∷ peers) =
    let rest = All-cons gm peers (candidates gm peers) p (candidates-IsTarget gm peers) in
    elim (Bool-cases (p.node_id == gm.node_id || p.state == state_dead)) [
      | inl skip ↦ rw skip rest
      | inr keep ↦ rw keep (
        record {
          known = mem-cons_self;
          other = λ e. ground (arith, (eq_iff p.node_id gm.node_id).1 e);
          live = λ e. ground (arith, (eq_iff p.state state_dead).1 e);
        },
        rest,
      )
    ]

nth-some :
    {P : Peer → Type 0} (found : List Peer) (i : ℕ)
    → All P found
    → i < length found
    → (p : Peer) × (nth found i ≡ some p) × P p
nth-some [] i h lt = absurd (omega arith)
nth-some (p ∷ found) zero h lt = (p, refl, h.0)
nth-some (p ∷ found) (suc i) h lt = nth-some found i h.1 (omega arith)

half-lt : (bits n : ℕ) → n < 2 ^ (bits - 1) → n < 2 ^ bits
half-lt zero n h = h
half-lt (suc b) n h =
    let below : n < 2 ^ b = subst (λ k. n < 2 ^ k) (same b) h in omega (arith, pow-suc 2 b)
  where
    same : (b : ℕ) → suc b - 1 ≡ b
    same b = omega arith

ℕ-cases : (n : ℕ) → (n ≡ 0) ⊎ ((k : ℕ) × (n ≡ suc k))
ℕ-cases zero = inl refl
ℕ-cases (suc k) = inr (k, refl)

below_zero : (k : ℕ) → sub_ℕ 0 (suc k) ≡ negsuc k
below_zero k = ground arith

to_int-fits : (bits n : ℕ) → n < 2 ^ (bits - 1) → to_int bits (pos n) ≡ pos n
unfolding to_int signed
to_int-fits bits n h =
    let small : n % 2 ^ bits ≡ n = mod-eq_of_lt (half-lt bits n h) in
    rw small (rw (lt→ltb n (2 ^ (bits - 1)) h) refl)

-- A reading that this int cannot hold, and has made negative.
abbrev pub Overflows : ℕ → ℤ → Type 0
Overflows bits nanos =
    ((n : ℕ) × (to_int bits nanos ≡ negsuc n)) × ((n : ℕ) → nanos ≡ pos n → 2 ^ (bits - 1) ≤ n)

pub tick-IsTarget :
    (gm : GossipManager) (bits : ℕ) (nanos : ℤ) (pm : PeerManager)
    → ((tick gm bits nanos pm ≡ nobody) × (candidates gm (get_all pm) ≡ []))
      ⊎ (((p : Peer) × (tick gm bits nanos pm ≡ target p) × IsTarget gm (get_all pm) p)
          ⊎ ((tick gm bits nanos pm ≡ index_panics) × Overflows bits nanos))
unfolding tick pick rem
tick-IsTarget gm bits nanos pm =
    pick-target (candidates gm (get_all pm)) (candidates-IsTarget gm (get_all pm))
  where
    at_rem :
        (found : List Peer) (i : ℤ)
        → All (IsTarget gm (get_all pm)) found
        → 0 < length found
        → to_int bits nanos ≡ i
        → ((p : Peer) × (at_index found (rem i (length found)) ≡ target p)
            × IsTarget gm (get_all pm) p)
          ⊎ ((at_index found (rem i (length found)) ≡ index_panics) × Overflows bits nanos)
    at_rem found (pos n) h some_found e =
        let (p, here, t) = nth-some found (n % length found) h (mod-lt n some_found) in
        inl (p, rw here refl, t)
    at_rem found (negsuc n) h some_found e =
        let negative : Overflows bits nanos = (
          (n, e),
          λ k same. elim (Bool-cases (ltb k (2 ^ (bits - 1)))) [
            | inl fits ↦
                let fit = to_int-fits bits k (ltb→lt k (2 ^ (bits - 1)) fits) in
                absurd (cc (sym fit ∙ ap (to_int bits) (sym same) ∙ e))
            | inr large ↦ ltb→ge k (2 ^ (bits - 1)) large
          ],
        ) in
        elim (ℕ-cases (suc n % length found)) [
          | inl none_left ↦
              let (p, here, t) = nth-some found 0 h some_found in
              inl (p, rw none_left (rw here refl), t)
          | inr (k, left) ↦ inr (rw left (ap (at_index found) (below_zero k)), negative)
        ]

    pick-target :
        (found : List Peer)
        → All (IsTarget gm (get_all pm)) found
        → ((pick bits nanos found ≡ nobody) × (found ≡ []))
          ⊎ (((p : Peer) × (pick bits nanos found ≡ target p) × IsTarget gm (get_all pm) p)
              ⊎ ((pick bits nanos found ≡ index_panics) × Overflows bits nanos))
    pick-target [] h = inl (refl, refl)
    pick-target (p ∷ found) h = inr (at_rem (p ∷ found) (to_int bits nanos) h (omega arith) refl)
