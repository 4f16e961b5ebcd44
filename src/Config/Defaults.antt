-- ===== src/Config/Defaults.antt =====
-- Without flags, a configuration passes through the texts of the flags unchanged.
use rtbh_panel.Common.{
  ℕ, ◌≡◌, ◌≢◌, refl, sym, String, true, false, Option, some, List, [], ◌∷◌, map, arith, inl, inr,
  ◌⊎◌, if◌then◌else◌, str_eq,
}
use rtbh_panel.Common.Lists.{All}
use rtbh_panel.Common.Results.{ok}
use rtbh_panel.Net.Addr.{Addr, no_addr, ip4, ip6, is4, is_valid}
use rtbh_panel.Net.Prefix.{Prefix, masked}
use rtbh_panel.Config.Settings.{Config, Library}
use rtbh_panel.Config.Environment.{
  split_csv, parse_ranges, parse_prefixes, parse_numbers, parse_asns, join_prefixes, join_asns,
}
use rtbh_panel.Config.Load.{default_flags, read_flags, parse_next_hop}

-- Values print as texts that read back, without blanks at their ends, and the list that the texts are
-- joined to splits into them.
abbrev pub AreRead : {A : Type 0} → Library → (A → String) → (String → Option A) → List A → Type 0
AreRead lib print parse l =
    All (λ a. (parse (print a) ≡ some a) × (lib.trim_space (print a) ≡ print a)) l
    × ((l ≡ [])
        ⊎ ((str_eq (lib.trim_space (lib.join_comma (map print l))) "" ≡ false)
            × (lib.split_comma (lib.join_comma (map print l)) ≡ map print l)))

abbrev pub IsRead : Library → Addr → Type 0
IsRead lib a = (lib.parse_addr (lib.print_addr a) ≡ some a) × (str_eq (lib.print_addr a) "" ≡ false)

-- What the library's printing and reading keep for the values of a configuration.
pub record Prints (lib : Library) (c : Config) : Type 0 where
  pub no_text : lib.trim_space "" ≡ ""
  pub join_none : lib.join_comma [] ≡ ""
  pub asn : lib.parse_uint32 (lib.format_uint c.local_asn) ≡ some c.local_asn
  pub router : IsRead lib c.router_id
  pub next_hop_v4 : (is_valid c.rtbh_next_hop_v4 ≡ false) ⊎ IsRead lib c.rtbh_next_hop_v4
  pub next_hop_v6 : IsRead lib c.rtbh_next_hop_v6
  pub ranges : AreRead lib lib.print_prefix lib.parse_prefix c.listen_ranges
  pub asns : AreRead lib lib.format_uint lib.parse_uint32 c.allowed_asns

module _ (lib : Library) (c : Config) (prints : Prints lib c) where
  trim_map :
      {A : Type 0} (print : A → String) (parse : String → Option A) (l : List A)
      → All (λ a. (parse (print a) ≡ some a) × (lib.trim_space (print a) ≡ print a)) l
      → map lib.trim_space (map print l) ≡ map print l
  trim_map print parse [] h = refl
  trim_map print parse (a ∷ l) h = rw (h.0.1, trim_map print parse l h.1) refl

  -- A joined list splits into its parts.
  split_csv_joined :
      {A : Type 0} (print : A → String) (parse : String → Option A) (l : List A)
      → AreRead lib print parse l
      → split_csv lib (lib.join_comma (map print l)) ≡ map print l
  unfolding split_csv
  split_csv_joined print parse l (reads, inl empty) =
      rw (empty, prints.join_none, prints.no_text) refl
  split_csv_joined print parse l (reads, inr (shown, split)) =
      rw (shown, split) (trim_map print parse l reads)

  parse_ranges_printed :
      (ps : List Prefix)
      → All
          (λ p.
            (lib.parse_prefix (lib.print_prefix p) ≡ some p)
            × (lib.trim_space (lib.print_prefix p) ≡ lib.print_prefix p))
          ps
      → All (λ p. masked p ≡ p) ps
      → parse_ranges lib (map lib.print_prefix ps) ≡ ok ps
  unfolding parse_ranges
  parse_ranges_printed [] reads h = refl
  parse_ranges_printed (p ∷ ps) reads h =
      let rest = parse_ranges_printed ps reads.1 h.1 in
      let back = reads.0.0 in let kept = h.0 in ground (arith, rest, back, kept)

  parse_numbers_printed :
      (ns : List ℕ)
      → All
          (λ n.
            (lib.parse_uint32 (lib.format_uint n) ≡ some n)
            × (lib.trim_space (lib.format_uint n) ≡ lib.format_uint n))
          ns
      → All (λ n. n ≢ 0) ns
      → parse_numbers lib (map lib.format_uint ns) ≡ ok ns
  unfolding parse_numbers
  parse_numbers_printed [] reads h = refl
  parse_numbers_printed (n ∷ ns) reads h =
      let rest = parse_numbers_printed ns reads.1 h.1 in
      let back = reads.0.0 in let kept = h.0 in ground (arith, rest, back, kept)

  -- The canonical listen ranges read back from their text.
  parse_prefixes-join_prefixes :
      All (λ p. masked p ≡ p) c.listen_ranges
      → parse_prefixes lib (join_prefixes lib c.listen_ranges) ≡ ok c.listen_ranges
  unfolding parse_prefixes join_prefixes
  parse_prefixes-join_prefixes h =
      rw (split_csv_joined lib.print_prefix lib.parse_prefix c.listen_ranges prints.ranges)
        (parse_ranges_printed c.listen_ranges prints.ranges.0 h)

  parse_asns-join_asns :
      All (λ n. n ≢ 0) c.allowed_asns
      → parse_asns lib (join_asns lib c.allowed_asns) ≡ ok c.allowed_asns
  unfolding parse_asns join_asns
  parse_asns-join_asns h =
      rw (split_csv_joined lib.format_uint lib.parse_uint32 c.allowed_asns prints.asns)
        (parse_numbers_printed c.allowed_asns prints.asns.0 h)

  next_hop_printed :
      (a fallback : Addr)
      → IsRead lib a
      → is4 a ≡ is4 fallback
      → parse_next_hop lib (lib.print_addr a) fallback ≡ ok a
  unfolding parse_next_hop
  next_hop_printed a fallback (reads, shown) family = ground (arith)

  next_hop_v4_printed :
      (a fallback : Addr)
      → (is_valid a ≡ false) ⊎ IsRead lib a
      → is_valid a ≡ is4 a
      → is4 fallback ≡ true
      → parse_next_hop lib (if is_valid a then lib.print_addr a else "") fallback
        ≡ ok (if is_valid a then a else fallback)
  unfolding parse_next_hop
  next_hop_v4_printed no_addr fallback reads family four = refl
  next_hop_v4_printed (ip4 n) fallback (inl invalid) family four = absurd (ground arith)
  next_hop_v4_printed (ip4 n) fallback (inr reads) family four =
      next_hop_printed (ip4 n) fallback reads (sym four)
  next_hop_v4_printed (ip6 n z) fallback reads family four = absurd (ground arith)

  -- When no flag is given, the configuration that the flags are read from is read back, with the
  -- router ID as the IPv4 next hop where there is none. The values of the configuration read back
  -- from their texts, and it has an IPv4 router ID, next hops of the right families, canonical
  -- listen ranges and nonzero ASNs.
  pub read_flags-default_flags :
      is4 c.router_id ≡ true
      → is_valid c.rtbh_next_hop_v4 ≡ is4 c.rtbh_next_hop_v4
      → is4 c.rtbh_next_hop_v6 ≡ false
      → All (λ p. masked p ≡ p) c.listen_ranges
      → All (λ n. n ≢ 0) c.allowed_asns
      → read_flags lib (default_flags lib c)
        ≡ ok (record c {
          rtbh_next_hop_v4 =
              if is_valid c.rtbh_next_hop_v4 then c.rtbh_next_hop_v4 else c.router_id;
        })
  unfolding read_flags
  read_flags-default_flags r v4 v6 ps ns =
      let asn = prints.asn in
      let router = prints.router.0 in
      let four = next_hop_v4_printed c.rtbh_next_hop_v4 c.router_id prints.next_hop_v4 v4 r in
      let six = next_hop_printed c.rtbh_next_hop_v6 (ip6 1 "") prints.next_hop_v6 v6 in
      let ranges = parse_prefixes-join_prefixes ps in
      let asns = parse_asns-join_asns ns in ground (arith, asn, router, four, six, ranges, asns)
