-- ===== src/Store/Scan/Pages.antt =====
-- From the first page to the last (Scan of internal/store/store.go).
use high_performance_kv_stor.Prelude.{
  ℕ, zero, suc, ◌+◌, ◌-◌, ◌<◌, ◌≡◌, ◌≢◌, refl, sym, ◌∙◌, ap, false, [], ◌∷◌, ◌++◌, Option, none,
  some, arith, leb, length, length-append, length-drop, length-take, take, drop, Bytes, bytes_eq,
  bytes_beq, bytes_beq_iff, ◌==◌, if◌then◌else◌, Bool-cases, inl, inr,
}
use high_performance_kv_stor.Store.State.{Store, entry_of}
use high_performance_kv_stor.Store.State.Shards.{IsValid}
use high_performance_kv_stor.Store.Sort.{Array, at, sort_strings}
use high_performance_kv_stor.Store.Sort.Sorted.{sort_strings-IsSorted}
use high_performance_kv_stor.Store.Scan.{all_keys, start_index, scan}
use high_performance_kv_stor.Store.Scan.Page.{Ascending, after_cursor, start_index-drop, scan-page}
use high_performance_kv_stor.Store.Scan.Listing.{count, count-listing}
use high_performance_kv_stor.Store.Scan.Next.{scan-next, at-drop, count-at}

abbrev extended : Array → Option Array → Option Array
extended keys none = none
extended keys (some rest) = some (keys ++ rest)

first_cursor : (keys : Array) → after_cursor [] keys ≡ keys
unfolding bytes_beq
first_cursor [] = refl
first_cursor (k ∷ keys) = ap (◌∷◌ k) (first_cursor keys)

module _ (now : ℕ) (prefix : Bytes) (limit : ℕ) (s : Store) where
  -- What a caller collects who asks for page after page, until none is left. There is no result
  -- where a page fails, or where more pages are left than `fuel`.
  abbrev pub pages : ℕ → Bytes → Option Array
  pages zero cursor = none
  pages (suc fuel) cursor = elim (scan now prefix limit cursor s) [
    | none ↦ none
    | some (keys, next) ↦ if next == [] then some keys else extended keys (pages fuel next)
  ]

  abbrev pub listing : Array
  listing = sort_strings (all_keys now prefix s.shards)

  module _ (v : IsValid s) (positive : 0 < limit) (no_empty_key : entry_of s [] ≡ none) where
    listing-named : (i : ℕ) → i < length listing → at listing i ≢ []
    listing-named i h empty =
        let here : count [] listing ≡ 0 = count-listing now prefix s [] v ∙ rw no_empty_key refl in
        absurd (omega (arith, count-at listing i h, ap (λ j. count j listing) empty, here))

    -- The last key of a page that names a next cursor.
    cursor-named :
        (cursor : Bytes)
        → limit < length (after_cursor cursor listing)
        → (at (after_cursor cursor listing) (limit - 1) == []) ≡ false
    cursor-named cursor long =
        let ascending : Ascending listing = λ x y b c.
          (sort_strings-IsSorted (all_keys now prefix s.shards)).0 x y (omega arith) b c in
        let start = start_index cursor listing in
        let rest : drop start listing ≡ after_cursor cursor listing =
          start_index-drop cursor listing ascending in
        let size = length-drop start listing in
        let last : at (after_cursor cursor listing) (limit - 1) ≡ at listing (start + (limit - 1)) =
          ap (λ ks. at ks (limit - 1)) (sym rest) ∙ at-drop start (limit - 1) listing in
        let named = listing-named (start + (limit - 1)) (omega (arith, ap length rest)) in
        ground (arith, last, named, bytes_beq_iff (at (after_cursor cursor listing) (limit - 1)) [])

    pages-after_cursor :
        (fuel : ℕ) (cursor : Bytes)
        → length (after_cursor cursor listing) < fuel
        → pages fuel cursor ≡ some (after_cursor cursor listing)
    pages-after_cursor zero cursor h = absurd (omega arith)
    pages-after_cursor (suc fuel) cursor h =
        let ks = after_cursor cursor listing in
        let found = scan-page now prefix limit cursor s positive in
        elim (Bool-cases (leb (length ks) limit)) [
          | inl whole ↦
              let here : scan now prefix limit cursor s ≡ some (ks, []) = found ∙ rw whole refl in
              let end = (bytes_beq_iff [] []).1 refl in rw (here, pages) (rw end refl)
          | inr more ↦
              let last = at ks (limit - 1) in
              let other = cursor-named cursor (ground arith) in
              let here : scan now prefix limit cursor s ≡ some (take limit ks, last) =
                found ∙ rw more refl in
              let joined : take limit ks ++ after_cursor last listing ≡ ks =
                scan-next now prefix limit cursor s (take limit ks) last v positive here
                  (λ e. ground (arith, e, other, bytes_beq_iff last [])) in
              let shorter : length (after_cursor last listing) < fuel = omega (
                arith,
                ap length joined,
                length-append (take limit ks) (after_cursor last listing),
                length-take limit ks (ground arith),
              ) in
              rw (here, pages) (rw (other, pages-after_cursor fuel last shorter) (ap some joined))
        ]

    -- As long as the store does not change and has no empty key, a caller of Scan who goes from
    -- page to page with a positive limit, at one reading of the clock, reaches the last one after
    -- as many pages as there are keys, or fewer, and has then every live key with the prefix, once
    -- and in order.
    pub pages-listing : pages (suc (length listing)) [] ≡ some listing
    pages-listing =
        pages-after_cursor (suc (length listing)) []
          (omega (arith, ap length (first_cursor listing)))
        ∙ ap some (first_cursor listing)
