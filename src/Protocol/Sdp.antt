-- ===== src/Protocol/Sdp.antt =====
-- `hashSdp`, `normalizeFingerprint` and `extractSingleSdpFingerprint` of packages/protocol/src/index.ts, on
-- the code points of a session description. A fingerprint is the list of its code points.
pub mod Lines
pub mod Canonical
use call_sign.Prelude.{
  ℕ, zero, suc, ◌+◌, ◌-◌, ◌*◌, ◌/◌, ◌%◌, String, Option, none, some, Bool, true, false, not, ◌&&◌,
  ◌||◌, List, [], ◌∷◌, ◌++◌, leb, ltb, nat_beq, any, every, length, if◌then◌else◌, Result, ok, err,
  error, throw_if, ◌>>=◌, ◌>>◌,
}
use call_sign.Prelude.Text.{codes, codes_eq, is_upper_hex, to_lower}
use call_sign.Protocol.Json.{Libraries}

abbrev newline : ℕ
newline = 10

abbrev return : ℕ
return = 13

-- `new TextEncoder().encode` of one code point.
unfoldable pub utf8_bytes : ℕ → List ℕ
utf8_bytes c =
    if ltb c 0x80
    then c ∷ []
    else if ltb c 0x800
    then (0xc0 + c / 0x40) ∷ (0x80 + c % 0x40) ∷ []
    else if ltb c 0x10000
    then (0xe0 + c / 0x1000) ∷ (0x80 + c / 0x40 % 0x40) ∷ (0x80 + c % 0x40) ∷ []
    else (0xf0 + c / 0x40000)
      ∷ (0x80 + c / 0x1000 % 0x40)
      ∷ (0x80 + c / 0x40 % 0x40)
      ∷ (0x80 + c % 0x40)
      ∷ []

unfoldable pub utf8 : List ℕ → List ℕ
unfolding utf8_bytes
utf8 [] = []
utf8 (c ∷ s) = utf8_bytes c ++ utf8 s

-- `.replace(/\r?\n/g, "\r\n")`; the flag says whether the last code point was a return.
unfoldable pub to_crlf : Bool → List ℕ → List ℕ
to_crlf after_return [] = []
to_crlf after_return (c ∷ s) =
    (if nat_beq c 10 && not after_return then 13 ∷ c ∷ [] else c ∷ []) ++ to_crlf (nat_beq c 13) s

unfoldable pub hash_sdp : Libraries → List ℕ → String
hash_sdp lib sdp = lib.sha256_hex (utf8 (to_crlf false sdp))

-- `\s`, which is also what `trim` removes.
abbrev pub is_space : ℕ → Bool
is_space c =
    leb 9 c && leb c 13
    || nat_beq c 32
    || nat_beq c 0xa0
    || nat_beq c 0x1680
    || leb 0x2000 c && leb c 0x200a
    || nat_beq c 0x2028
    || nat_beq c 0x2029
    || nat_beq c 0x202f
    || nat_beq c 0x205f
    || nat_beq c 0x3000
    || nat_beq c 0xfeff

unfoldable pub skip_spaces : List ℕ → List ℕ
skip_spaces [] = []
skip_spaces (c ∷ s) = if is_space c then skip_spaces s else c ∷ s

-- The end of `trim`.
unfoldable pub trim_end : List ℕ → List ℕ
unfolding every
trim_end [] = []
trim_end (c ∷ s) = let rest = trim_end s in if every is_space (c ∷ s) then [] else c ∷ rest

unfoldable pub trim : List ℕ → List ℕ
trim s = trim_end (skip_spaces s)

-- What follows `prefix`, letters compared without case.
unfoldable pub after_prefix : List ℕ → List ℕ → Option (List ℕ)
after_prefix [] s = some s
after_prefix (p ∷ ps) [] = none
after_prefix (p ∷ ps) (c ∷ s) = if nat_beq p (to_lower c) then after_prefix ps s else none

abbrev starts_with_space : List ℕ → Bool
starts_with_space [] = false
starts_with_space (c ∷ s) = is_space c

abbrev spaced : List ℕ → Option (List ℕ) → List ℕ
spaced s none = s
spaced s (some rest) = if starts_with_space rest then skip_spaces rest else s

-- `.replace(/^sha-256\s+/i, "")`
unfoldable pub drop_algorithm : List ℕ → List ℕ
unfolding codes
drop_algorithm s = spaced s (after_prefix (codes "sha-256") s)

-- `.replace(/[:-]/g, "")`
unfoldable pub drop_marks : List ℕ → List ℕ
drop_marks [] = []
drop_marks (c ∷ s) = if nat_beq c b':' || nat_beq c b'-' then drop_marks s else c ∷ drop_marks s

-- `.toUpperCase()`, as far as it yields digits or the letters A to F: those of ASCII, and the ligature
-- U+FB00, whose upper case is FF. Other code points stay and fail the test that follows.
abbrev pub upper : ℕ → List ℕ
upper c =
    if leb b'a' c && leb c b'z'
    then (c - 32) ∷ []
    else if nat_beq c 0xfb00
    then b'F' ∷ b'F' ∷ []
    else c ∷ []

unfoldable pub to_upper : List ℕ → List ℕ
to_upper [] = []
to_upper (c ∷ s) = upper c ++ to_upper s

-- `.match(/.{2}/g)!.join(":")`
unfoldable pub join_pairs : List ℕ → List ℕ
join_pairs (a ∷ b ∷ []) = a ∷ b ∷ []
join_pairs (a ∷ b ∷ c ∷ s) = a ∷ b ∷ b':' ∷ join_pairs (c ∷ s)
join_pairs _ = []

abbrev pub compact : List ℕ → List ℕ
compact s = to_upper (drop_marks (drop_algorithm (trim s)))

unfoldable pub normalize_fingerprint : List ℕ → Result (List ℕ)
unfolding every
normalize_fingerprint s = do
  throw_if (not (nat_beq (length (compact s)) 64 && every is_upper_hex (compact s)))
      (error "INVALID_SHA256_FINGERPRINT")
  ok (join_pairs (compact s))

-- `[^\r\n]+` up to the end of the line.
unfoldable pub line : List ℕ → List ℕ
line [] = []
line (c ∷ s) = if nat_beq c 10 || nat_beq c 13 then [] else c ∷ line s

-- What `\s+([^\r\n]+)$` takes of white space that runs to the end of the text: it gives back the last
-- code point that ends no line, after the first.
unfoldable pub given_back : List ℕ → Option (List ℕ)
given_back [] = none
given_back (c ∷ s) = elim (given_back s) [
  | some capture ↦ some capture
  | none ↦ if nat_beq c 10 || nat_beq c 13 then none else some (c ∷ [])
]

abbrev captured : List ℕ → List ℕ → Option (List ℕ)
captured [] white = given_back white
captured (c ∷ s) white = some (line (c ∷ s))

-- `\s+([^\r\n]+)$`
abbrev after_space : List ℕ → Option (List ℕ)
after_space [] = none
after_space (c ∷ s) = if is_space c then captured (skip_spaces s) s else none

abbrev capture_of : Option (List ℕ) → Option (List ℕ)
capture_of none = none
capture_of (some rest) = after_space rest

-- One match of `/^a=fingerprint:sha-256\s+([^\r\n]+)$/i` at the start of a line.
unfoldable pub match_fingerprint : List ℕ → Option (List ℕ)
unfolding codes
match_fingerprint s = capture_of (after_prefix (codes "a=fingerprint:sha-256") s)

-- `^` in a regular expression of several lines.
abbrev ends_line : ℕ → Bool
ends_line c = nat_beq c 10 || nat_beq c 13 || nat_beq c 0x2028 || nat_beq c 0x2029

-- The captures of `matchAll`; a match that runs over the end of a line hides what starts inside it, but
-- then its capture is no fingerprint.
unfoldable pub captures : Bool → List ℕ → List (List ℕ)
captures at_start [] = []
captures at_start (c ∷ s) =
    let rest = captures (ends_line c) s in
    elim at_start [
      | false ↦ rest
      | true ↦ elim (match_fingerprint (c ∷ s)) [ none ↦ rest | some capture ↦ capture ∷ rest ]
    ]

unfoldable pub normalize_all : List (List ℕ) → Result (List (List ℕ))
normalize_all [] = ok []
normalize_all (x ∷ xs) = do
  value ← normalize_fingerprint x
  values ← normalize_all xs
  ok (value ∷ values)

-- `unique.length !== 1` and the element that is left.
unfoldable pub single : List (List ℕ) → Result (List ℕ)
unfolding every
single [] = err (error "MISSING_SHA256_FINGERPRINT")
single (x ∷ xs) = do
  throw_if (not (every (codes_eq x) xs)) (error "CONFLICTING_SHA256_FINGERPRINTS")
  ok x

unfoldable pub extract_single_sdp_fingerprint : List ℕ → Result (List ℕ)
extract_single_sdp_fingerprint sdp = do values ← normalize_all (captures true sdp); single values
