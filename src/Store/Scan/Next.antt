-- ===== src/Store/Scan/Next.antt =====
-- From one page to the next (Scan of internal/store/store.go).
use high_performance_kv_stor.Prelude.{
  ℕ, zero, suc, ◌+◌, ◌-◌, ◌≤◌, ◌<◌, ◌≡◌, ◌≢◌, refl, sym, ◌∙◌, ap, true, false, [], ◌∷◌, ◌++◌, none,
  some, arith, leb, length, take, drop, drop-drop, take-append-drop, length-drop, Bytes, bytes_eq,
  bytes_beq_iff, ◌==◌, Bool-cases, inl, inr,
}
use high_performance_kv_stor.Prelude.Order.{
  bytes_ltb, bytes_ltb_irrefl, bytes_ltb_asymm, bytes_antisym,
}
use high_performance_kv_stor.Store.State.{Store}
use high_performance_kv_stor.Store.State.Shards.{IsValid}
use high_performance_kv_stor.Store.Sort.{Array, at, sort_strings}
use high_performance_kv_stor.Store.Sort.Sorted.{sort_strings-IsSorted}
use high_performance_kv_stor.Store.Scan.{all_keys, start_index, scan}
use high_performance_kv_stor.Store.Scan.Page.{
  Ascending, after_cursor, after_all, start_index-drop, page, scan-page,
}
use high_performance_kv_stor.Store.Scan.Listing.{count, count-listing}

-- Each key is below the later ones.
abbrev Increasing : Array → Type 0
Increasing keys = (x y : ℕ) → x < y → y < length keys → bytes_ltb (at keys x) (at keys y) ≡ true

pub count-at : (keys : Array) (i : ℕ) → i < length keys → 0 < count (at keys i) keys
count-at [] i h = absurd (omega arith)
count-at (k ∷ keys) zero h = ground (arith, bytes_beq_iff k k)
count-at (k ∷ keys) (suc i) h = ground (arith, count-at keys i)

count-twice :
    (keys : Array) (x y : ℕ)
    → x < y
    → y < length keys
    → at keys x ≡ at keys y
    → 1 < count (at keys y) keys
count-twice [] x y l h e = absurd (omega arith)
count-twice (k ∷ keys) x zero l h e = absurd (omega arith)
count-twice (k ∷ keys) zero (suc y) l h e =
    ground (arith, bytes_beq_iff k (at keys y), count-at keys y)
count-twice (k ∷ keys) (suc x) (suc y) l h e = ground (arith, count-twice keys x y)

increasing : (keys : Array) → Ascending keys → ((j : Bytes) → count j keys ≤ 1) → Increasing keys
increasing keys a once x y l h = elim (Bool-cases (bytes_ltb (at keys x) (at keys y))) [
  | inl below ↦ below
  | inr not_below ↦
      let same = bytes_antisym (at keys x) (at keys y) not_below (a x y (omega arith) h) in
      absurd (omega (arith, count-twice keys x y l h same, once (at keys y)))
]

after_at :
    (keys : Array) (i : ℕ)
    → Increasing keys
    → Ascending keys
    → i < length keys
    → (at keys i == []) ≡ false
    → after_cursor (at keys i) keys ≡ drop (suc i) keys
after_at [] i inc a h n = absurd (omega arith)
after_at (k ∷ []) zero inc a h n = ground (arith, bytes_ltb_irrefl k)
after_at (k ∷ l ∷ keys) zero inc a h n =
    let next = inc 0 1 (omega arith) (omega arith) in
    ground (
      arith,
      bytes_ltb_irrefl k,
      after_all k l keys next (λ x y b m. a (suc x) (suc y) (omega arith) (omega arith)),
    )
after_at (k ∷ keys) (suc i) inc a h n =
    let later = inc 0 (suc i) (omega arith) h in
    ground (
      arith,
      bytes_ltb_asymm k (at keys i) later,
      after_at keys i (λ x y l m. inc (suc x) (suc y) (omega arith) (omega arith))
          (λ x y l m. a (suc x) (suc y) (omega arith) (omega arith)) (omega arith) n,
    )

pub at-drop : (n i : ℕ) (keys : Array) → at (drop n keys) i ≡ at keys (n + i)
at-drop zero i keys = let e : i ≡ 0 + i = omega arith in ap (at keys) e
at-drop (suc n) i [] = refl
at-drop (suc n) i (k ∷ keys) =
    let e : suc (n + i) ≡ suc n + i = omega arith in at-drop n i keys ∙ ap (at (k ∷ keys)) e

pub some_inj : {p q : Array × Bytes} → some p ≡ some q → p ≡ q
some_inj {p} e = ap (λ o. elim o [ none ↦ p | some r ↦ r ]) e

after_page :
    (limit : ℕ) (cursor : Bytes) (keys : Array)
    → 0 < limit
    → Increasing keys
    → Ascending keys
    → limit < length (after_cursor cursor keys)
    → at (after_cursor cursor keys) (limit - 1) ≢ []
    → after_cursor (at (after_cursor cursor keys) (limit - 1)) keys
      ≡ drop limit (after_cursor cursor keys)
after_page limit cursor keys h inc a long named =
    let start = start_index cursor keys in
    let rest : drop start keys ≡ after_cursor cursor keys = start_index-drop cursor keys a in
    let size = length-drop start keys in
    let last : at (after_cursor cursor keys) (limit - 1) ≡ at keys (start + (limit - 1)) =
      ap (λ ks. at ks (limit - 1)) (sym rest) ∙ at-drop start (limit - 1) keys in
    let short : start + (limit - 1) < length keys = omega (arith, ap length rest) in
    let other : (at keys (start + (limit - 1)) == []) ≡ false =
      elim (Bool-cases (at keys (start + (limit - 1)) == [])) [
        | inl empty ↦
            absurd (named (last ∙ (bytes_beq_iff (at keys (start + (limit - 1))) []).0 empty))
        | inr full ↦ full
      ] in
    let sum : suc (start + (limit - 1)) ≡ start + limit = omega arith in
    ap (λ c. after_cursor c keys) last
    ∙ after_at keys (start + (limit - 1)) inc a short other
    ∙ ap (λ n. drop n keys) sum
    ∙ drop-drop start limit keys
    ∙ ap (drop limit) rest

-- Where a page of a well-formed store names a next cursor, its keys and then the keys behind that
-- cursor are, in order, the keys behind the page's own cursor: a client that goes on from page to
-- page misses none and sees none twice, as long as the store does not change.
pub scan-next :
    (now : ℕ) (prefix : Bytes) (limit : ℕ) (cursor : Bytes) (s : Store) (keys : Array)
    (next : Bytes)
    → IsValid s
    → 0 < limit
    → scan now prefix limit cursor s ≡ some (keys, next)
    → next ≢ []
    → let listing = sort_strings (all_keys now prefix s.shards) in
      keys ++ after_cursor next listing ≡ after_cursor cursor listing
scan-next now prefix limit cursor s keys next v h found named =
    let listing = sort_strings (all_keys now prefix s.shards) in
    let ks = after_cursor cursor listing in
    let asc : Ascending listing =
      λ x y b c. (sort_strings-IsSorted (all_keys now prefix s.shards)).0 x y (omega arith) b c in
    let once : (j : Bytes) → count j listing ≤ 1 =
      λ j. ground (arith, count-listing now prefix s j v) in
    let both : (keys, next) ≡ page limit ks =
      some_inj (sym found ∙ scan-page now prefix limit cursor s h) in
    elim (Bool-cases (leb (length ks) limit)) [
      | inl whole ↦ absurd (named (ap (λ p. p.1) both ∙ rw whole))
      | inr more ↦
          let first : keys ≡ take limit ks = ap (λ p. p.0) both ∙ rw more in
          let last : next ≡ at ks (limit - 1) = ap (λ p. p.1) both ∙ rw more in
          let rest =
            after_page limit cursor listing h (increasing listing asc once) asc (ground arith)
              (λ e. named (last ∙ e)) in
          rw (first, last) (ap (λ r. take limit ks ++ r) rest ∙ take-append-drop limit ks)
    ]
