-- ===== src/Feed/Parse.antt =====
-- ParseList and ExpandIPv4ToSlash32.
use rtbh_panel.Common.{
  ℕ, zero, suc, ◌+◌, ◌-◌, ◌%◌, ◌^◌, Bool, ◌&&◌, ◌||◌, ◌==◌, Option, none, some, List, [], ◌∷◌, ◌++◌,
  if◌then◌else◌, ltb, leb,
}
use rtbh_panel.Common.Lists.{member}
use rtbh_panel.Net.Addr.{Addr, ip4, is4, is6}
use rtbh_panel.Net.Prefix.{Prefix, no_prefix, p4, p6, discrete, masked, addr, from}

-- What a line of a feed holds, after its comment and blanks are off: nothing, a text without "/"
-- that is an address or not, or a text with "/" that is a prefix or not.
pub data Line : Type 0 where
  ignored : Line
  bare : Option Addr → Line
  cidr : Option Prefix → Line

-- prefix.Bits(), which is -1 for an invalid prefix; no call here reaches that.
abbrev pub bits : Prefix → ℕ
bits no_prefix = 0
bits (p4 a b) = b
bits (p6 a b) = b

-- The addresses from a base on, with the addition of uint32.
unfoldable pub hosts : ℕ → ℕ → ℕ → List Prefix
hosts base i zero = []
hosts base i (suc count) = from (ip4 ((base + i) % 2 ^ 32)) 32 ∷ hosts base (suc i) count

abbrev pub expand_masked : Prefix → List Prefix
expand_masked (p4 a b) = if ltb b 16 || (b == 32) then p4 a b ∷ [] else hosts a 0 (2 ^ (32 - b))
expand_masked p = p ∷ []

-- ExpandIPv4ToSlash32
unfoldable pub expand_ip_v4_to_slash32 : Prefix → List Prefix
expand_ip_v4_to_slash32 p = expand_masked (masked p)

-- addPrefix: `seen` holds the prefixes that are in the list.
unfoldable pub add_prefix : List Prefix → Prefix → List Prefix
add_prefix prefixes p =
    if member discrete (masked p) prefixes then prefixes else prefixes ++ masked p ∷ []

unfoldable pub add_all : List Prefix → List Prefix → List Prefix
add_all prefixes [] = prefixes
add_all prefixes (p ∷ rest) = add_all (add_prefix prefixes p) rest

-- The prefix of a line; the lines without one are skipped.
abbrev pub line_prefix : Line → Option Prefix
line_prefix ignored = none
line_prefix (bare none) = none
line_prefix (bare (some a)) = some (from a (if is6 a then 128 else 32))
line_prefix (cidr none) = none
line_prefix (cidr (some p)) = some p

abbrev pub expands : Bool → Prefix → Bool
expands expand_slash24 p = expand_slash24 && (is4 (addr p) && (leb 16 (bits p) && ltb (bits p) 32))

abbrev pub add_line : Bool → List Prefix → Option Prefix → List Prefix
add_line expand_slash24 prefixes none = prefixes
add_line expand_slash24 prefixes (some p) =
    if expands expand_slash24 (masked p)
    then add_all prefixes (expand_ip_v4_to_slash32 (masked p))
    else add_prefix prefixes (masked p)

unfoldable pub parse_from : Bool → List Prefix → List Line → List Prefix
parse_from expand_slash24 prefixes [] = prefixes
parse_from expand_slash24 prefixes (line ∷ rest) =
    parse_from expand_slash24 (add_line expand_slash24 prefixes (line_prefix line)) rest

-- ParseList; `read_error` is scanner.Err() != nil.
unfoldable pub parse_list : Bool → Bool → List Line → Option (List Prefix)
parse_list read_error expand_slash24 lines =
    if read_error then none else some (parse_from expand_slash24 [] lines)
