-- ===== src/Store/Scan/Page.antt =====
-- Which keys a page holds (Scan of internal/store/store.go).
use high_performance_kv_stor.Prelude.{
  ℕ, zero, suc, ◌+◌, ◌-◌, ◌≤◌, ◌<◌, ◌≡◌, refl, sym, ◌∙◌, ap, true, false, ◌||◌, [], ◌∷◌, some,
  arith, ltb, leb, nat_beq, length, take, drop, length-drop, length-take, take_all, Bytes, bytes_eq,
  ◌==◌, if◌then◌else◌, Bool-cases, inl, inr,
}
use high_performance_kv_stor.Prelude.Order.{bytes_ltb, bytes_ge_trans}
use high_performance_kv_stor.Store.State.{Store}
use high_performance_kv_stor.Store.Sort.{Array, at, sort_strings}
use high_performance_kv_stor.Store.Sort.Sorted.{sort_strings-IsSorted}
use high_performance_kv_stor.Store.Scan.{
  all_keys, seek_cursor, start_index, cut_range, cut_page, scan,
}

-- The keys behind a cursor; the empty cursor is before every key.
abbrev pub after_cursor : Bytes → Array → Array
after_cursor cursor [] = []
after_cursor cursor (k ∷ keys) =
    let rest = after_cursor cursor keys in
    if cursor == [] || bytes_ltb cursor k then k ∷ rest else rest

-- The first `limit` of some keys, and the cursor of the next page: the last key of this one, or
-- nothing if it holds all.
abbrev pub page : ℕ → Array → Array × Bytes
page limit keys =
    if leb (length keys) limit then (keys, []) else (take limit keys, at keys (limit - 1))

after_top :
    (cursor : Bytes) (keys : Array) → (cursor == []) ≡ true → after_cursor cursor keys ≡ keys
after_top cursor [] h = refl
after_top cursor (k ∷ keys) h = ground (arith, after_top cursor keys h)

-- A list in which no key is below an earlier one.
abbrev pub Ascending : Array → Type 0
Ascending keys = (x y : ℕ) → x ≤ y → y < length keys → bytes_ltb (at keys y) (at keys x) ≡ false

above_trans :
    (cursor k l : Bytes)
    → bytes_ltb cursor k ≡ true
    → bytes_ltb l k ≡ false
    → bytes_ltb cursor l ≡ true
above_trans cursor k l h b = elim (Bool-cases (bytes_ltb cursor l)) [
  | inl above ↦ above
  | inr not_above ↦ ground (arith, bytes_ge_trans k l cursor)
]

-- Behind a key that lies behind the cursor, all do.
pub after_all :
    (cursor k : Bytes) (keys : Array)
    → bytes_ltb cursor k ≡ true
    → Ascending (k ∷ keys)
    → after_cursor cursor keys ≡ keys
after_all cursor k [] h a = refl
after_all cursor k (l ∷ keys) h a =
    let above : bytes_ltb cursor l ≡ true =
      above_trans cursor k l h (a 0 1 (omega arith) (omega arith)) in
    ground (
      arith,
      above,
      after_all cursor l keys above (λ x y b c. a (suc x) (suc y) (omega arith) (omega arith)),
    )

drop-nil : (n : ℕ) → drop {A = Bytes} n [] ≡ []
drop-nil zero = refl
drop-nil (suc n) = refl

drop_pred :
    (m i : ℕ) (k : Bytes) (keys : Array) → i < m → drop (m - i) (k ∷ keys) ≡ drop (m - suc i) keys
drop_pred m i k keys h =
    let e : m - i ≡ suc (m - suc i) = omega arith in ap (λ d. drop d (k ∷ keys)) e

seek_cursor-ge :
    (cursor : Bytes) (n i start : ℕ) (keys : Array)
    → i + length keys ≡ n
    → (length keys ≡ 0 → start ≡ n)
    → i ≤ seek_cursor cursor n i start keys
unfolding seek_cursor
seek_cursor-ge cursor n i start [] h e = omega (arith, e refl)
seek_cursor-ge cursor n i start (k ∷ keys) h e =
    let next = if nat_beq (suc i) n then n else start in
    let last : length keys ≡ 0 → next ≡ n = λ z. ground arith in
    ground (arith, seek_cursor-ge cursor n (suc i) next keys (omega arith) last)

seek_cursor-drop :
    (cursor : Bytes) (n i start : ℕ) (keys : Array)
    → (cursor == []) ≡ false
    → i + length keys ≡ n
    → (length keys ≡ 0 → start ≡ n)
    → Ascending keys
    → drop (seek_cursor cursor n i start keys - i) keys ≡ after_cursor cursor keys
unfolding seek_cursor
seek_cursor-drop cursor n i start [] c h e a = drop-nil (start - i)
seek_cursor-drop cursor n i start (k ∷ keys) c h e a =
    let next = if nat_beq (suc i) n then n else start in
    let last : length keys ≡ 0 → next ≡ n = λ z. ground arith in
    let tail : Ascending keys = λ x y b d. a (suc x) (suc y) (omega arith) (omega arith) in
    elim (Bool-cases (bytes_ltb cursor k)) [
      | inl above ↦
          let here : i - i ≡ 0 = omega arith in
          rw above
            (ap (λ d. drop d (k ∷ keys)) here ∙ ground (arith, after_all cursor k keys above a))
      | inr not_above ↦ rw not_above (
          rw c (
            drop_pred (seek_cursor cursor n (suc i) next keys) i k keys
              (seek_cursor-ge cursor n (suc i) next keys (omega arith) last)
            ∙ seek_cursor-drop cursor n (suc i) next keys c (omega arith) last tail))
    ]

pub start_index-drop :
    (cursor : Bytes) (keys : Array)
    → Ascending keys
    → drop (start_index cursor keys) keys ≡ after_cursor cursor keys
unfolding start_index
start_index-drop cursor [] a = drop-nil (start_index cursor [])
start_index-drop cursor (k ∷ keys) a = elim (Bool-cases (cursor == [])) [
  | inl top ↦ rw top (ap (◌∷◌ k) (sym (after_top cursor keys top)))
  | inr below ↦
      let found = seek_cursor cursor (length (k ∷ keys)) 0 0 (k ∷ keys) in
      let here : start_index cursor (k ∷ keys) ≡ found - 0 = rw below (omega arith) in
      ap (λ d. drop d (k ∷ keys)) here
      ∙ seek_cursor-drop cursor (length (k ∷ keys)) 0 0 (k ∷ keys) below (omega arith)
          (λ z. absurd (omega (arith, z))) a
]

drop_all : (n : ℕ) (keys : Array) → length keys ≤ n → drop n keys ≡ []
drop_all n [] h = drop-nil n
drop_all zero (k ∷ keys) h = absurd (omega arith)
drop_all (suc n) (k ∷ keys) h = drop_all n keys (omega arith)

get_or-take : (n i : ℕ) (keys : Array) → i < n → at (take n keys) i ≡ at keys i
get_or-take zero i keys h = absurd (omega arith)
get_or-take (suc n) i [] h = refl
get_or-take (suc n) zero (k ∷ keys) h = refl
get_or-take (suc n) (suc i) (k ∷ keys) h = get_or-take n i keys (omega arith)

cut_page-page :
    (keys : Array) (start limit : ℕ)
    → 0 < limit
    → cut_page keys start limit ≡ some (page limit (drop start keys))
unfolding cut_page cut_range
cut_page-page keys start limit h =
    let rest = length-drop start keys in
    let ks = drop start keys in
    elim (Bool-cases (leb (length keys) start)) [
      | inl past ↦ ground (arith, drop_all start keys)
      | inr within ↦ elim (Bool-cases (ltb (start + limit) (length keys))) [
        | inl more ↦
            let size : start + limit - start ≡ limit = omega arith in
            ground (arith, length-take limit ks, get_or-take limit (limit - 1) ks)
        | inr whole ↦ ground (arith, take_all (length keys - start) ks)
      ]
    ]

-- A page of a positive size holds the first keys, in order, of the live keys with the prefix that
-- lie behind the cursor, all of them if it names no next cursor; the next cursor is otherwise its
-- last key. No key is skipped, and the slice never leaves the list's bounds.
pub scan-page :
    (now : ℕ) (prefix : Bytes) (limit : ℕ) (cursor : Bytes) (s : Store)
    → 0 < limit
    → scan now prefix limit cursor s
      ≡ some (page limit (after_cursor cursor (sort_strings (all_keys now prefix s.shards))))
unfolding scan
scan-page now prefix limit cursor s h =
    let keys = sort_strings (all_keys now prefix s.shards) in
    cut_page-page keys (start_index cursor keys) limit h
    ∙ ap (λ ks. some (page limit ks))
        (start_index-drop cursor keys (λ x y b c.
          (sort_strings-IsSorted (all_keys now prefix s.shards)).0 x y (omega arith) b c))
