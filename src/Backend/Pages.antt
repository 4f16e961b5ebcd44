-- ===== src/Backend/Pages.antt =====
-- The pages of a listing, one after the other.
use rtbh_panel.Common.{
  ℕ, zero, suc, ◌+◌, ◌-◌, ◌*◌, ◌%◌, ◌^◌, ◌≤◌, ◌<◌, ◌≡◌, refl, sym, ap, ◌∙◌, String, ltb, Option,
  none, some, List, [], ◌++◌, map, arith, inl, inr, Bool-cases,
}
use rtbh_panel.Common.Lists.{length, take, drop, take_long, drop_long, length-drop, take_nil}
use mathlib.Core.List.{map-append}
use rtbh_panel.Common.Pages.{pages, pages_all}
use rtbh_panel.PolicyStore.State.{Store}
use rtbh_panel.Feed.Manager.{Manager}
use rtbh_panel.Sql.Policies.{at_least_one}
use rtbh_panel.Backend.Listing.{
  Library, Page, PolicyItem, clamp, slice, page_start, page_end, selected, item_of, list_memory,
  show_page, shown_page,
}

module _ {A : Type 0} where
  -- A slice between two bounds that are cut off at the length.
  slice_clamped :
      (start limit : ℕ) (l : List A)
      → 0 < limit
      → start + limit < 2 ^ 63
      → length l < 2 ^ 63
      → slice (clamp (length l) start) (clamp (length l) (start + limit)) l
        ≡ some (take limit (drop start l))
  unfolding slice
  slice_clamped start limit l positive small short =
      let total = length l in
      let rest = length-drop start l in
      elim (Bool-cases (ltb total start)) [
        | inl beyond ↦
            let none_left : drop start l ≡ [] = drop_long start l (ground arith) in
            let bounds : slice (clamp total start) (clamp total (start + limit)) l
                ≡ some (take (total - total) (drop total l)) =
              ground arith in
            let nothing : take (total - total) (drop total l) ≡ [] =
              ap (λ t. take (total - total) t) (drop_long total l (omega arith))
              ∙ take_nil (total - total) in
            bounds ∙ ap some (nothing ∙ sym (take_nil limit) ∙ ap (take limit) (sym none_left))
        | inr within ↦ elim (Bool-cases (ltb total (start + limit))) [
          | inl last ↦
              let bounds : slice (clamp total start) (clamp total (start + limit)) l
                  ≡ some (take (total - start) (drop start l)) =
                ground arith in
              let all_left : length (drop start l) ≤ total - start = omega (arith, rest) in
              let fits : length (drop start l) ≤ limit = ground (arith, rest) in
              bounds
              ∙ ap some (
                  take_long (total - start) (drop start l) all_left
                  ∙ sym (take_long limit (drop start l) fits))
          | inr full ↦
              let bounds : slice (clamp total start) (clamp total (start + limit)) l
                  ≡ some (take ((start + limit) - start) (drop start l)) =
                ground arith in
              let width : (start + limit) - start ≡ limit = omega arith in
              bounds ∙ ap (λ n. some (take n (drop start l))) width
        ]
      ]

page_bounds :
    (k limit : ℕ)
    → (k + 1) * limit < 2 ^ 63
    → (page_start (suc k) limit ≡ k * limit) × (page_end (suc k) limit ≡ k * limit + limit)
page_bounds k limit small =
    let before : suc k - 1 ≡ k = omega arith in
    let whole : (k + 1) * limit ≡ k * limit + limit = omega arith in
    let fits : k * limit + limit < 2 ^ 63 = rw (sym whole) small in
    let start : page_start (suc k) limit ≡ k * limit =
      ap (λ n. (n * limit) % 2 ^ 64) before ∙ omega (arith, fits) in
    (start, ap (λ n. (n + limit) % 2 ^ 64) start ∙ omega (arith, fits))

module _ (lib : Library) (feeds : Option Manager) (list search : String) (limit : ℕ)
    (s : Store) where
  abbrev appended : List PolicyItem → Option Page → Option (List PolicyItem)
  appended before none = none
  appended before (some p) = some (before ++ p.items)

  -- The items of the first n pages, one page after the other; `none` if the code panics.
  unfoldable pub read_pages : ℕ → Option (List PolicyItem)
  read_pages zero = some []
  read_pages (suc k) = elim (read_pages k) [
    | none ↦ none
    | some before ↦ appended before (list_memory lib feeds list search (suc k) limit s)
  ]

  list_memory_page :
      (k : ℕ)
      → 0 < limit
      → (k + 1) * limit < 2 ^ 63
      → length (selected lib list search s) < 2 ^ 63
      → (p : Page) × (list_memory lib feeds list search (suc k) limit s ≡ some p)
        × (p.items
            ≡ map (item_of feeds list) (take limit (drop (k * limit) (selected lib list search s))))
  unfolding list_memory show_page
  list_memory_page k positive small short =
      let l = selected lib list search s in
      let bounds = page_bounds k limit small in
      let whole : k * limit + limit ≡ (k + 1) * limit = omega arith in
      let fits : k * limit + limit < 2 ^ 63 = rw whole small in
      let cut = slice_clamped (k * limit) limit l positive fits short in
      let sliced : slice (clamp (length l) (page_start (suc k) limit))
            (clamp (length l) (page_end (suc k) limit)) l
          ≡ some (take limit (drop (k * limit) l)) =
        ap (λ n. slice (clamp (length l) n) (clamp (length l) (page_end (suc k) limit)) l) bounds.0
        ∙ ap (λ n. slice (clamp (length l) (k * limit)) (clamp (length l) n) l) bounds.1
        ∙ cut in
      let given : at_least_one 25 limit ≡ limit = ground arith in
      let page : at_least_one 1 (suc k) ≡ suc k = ground arith in
      let same : list_memory lib feeds list search (suc k) limit s
          ≡ show_page lib feeds list l (suc k) limit =
        ap (λ m. show_page lib feeds list l m (at_least_one 25 limit)) page
        ∙ ap (λ m. show_page lib feeds list l (suc k) m) given in
      (_, same ∙ ap (shown_page lib feeds list (suc k) limit (length l)) sliced, refl)

  read_pages-pages :
      (n : ℕ)
      → 0 < limit
      → n * limit < 2 ^ 63
      → length (selected lib list search s) < 2 ^ 63
      → read_pages n ≡ some (map (item_of feeds list) (pages limit n (selected lib list search s)))
  unfolding read_pages pages
  read_pages-pages zero positive small short = refl
  read_pages-pages (suc k) positive small short =
      let whole : suc k * limit ≡ (k + 1) * limit = omega arith in
      let fits : (k + 1) * limit < 2 ^ 63 = rw (sym whole) small in
      let less : k * limit < 2 ^ 63 = omega (arith, fits) in
      let before = read_pages-pages k positive less short in
      let (p, found, items) = list_memory_page k positive fits short in
      let l = selected lib list search s in
      let joined =
        map-append (item_of feeds list) (pages limit k l) (take limit (drop (k * limit) l)) in
      let both : read_pages (suc k) ≡ some (map (item_of feeds list) (pages limit k l) ++ p.items) =
        ground (arith, before, found) in
      both
      ∙ ap (λ t. some (map (item_of feeds list) (pages limit k l) ++ t)) items
      ∙ ap some (sym joined)

  -- Reading the pages of a listing one after the other gives every selected policy once, in the order
  -- of the store, and no page panics: with a positive limit, and as many pages as hold them all, whose
  -- count times the limit is below 2 ^ 63.
  pub read_pages-selected :
      (n : ℕ)
      → 0 < limit
      → n * limit < 2 ^ 63
      → length (selected lib list search s) ≤ n * limit
      → read_pages n ≡ some (map (item_of feeds list) (selected lib list search s))
  read_pages-selected n positive small enough =
      let l = selected lib list search s in
      read_pages-pages n positive small (omega (arith, small, enough))
      ∙ ap (λ t. some (map (item_of feeds list) t)) (pages_all limit n l enough)
