-- ===== src/Api/Ids.antt =====
-- `_BUNKER_ID_PATTERN` of lumenos_sandbox/api.py: the ids that may become the name of a machine, a part
-- of a path and of a glob.
use lumenos_hiper_v.Prelude.{
  ℕ, ◌≤◌, ◌≡◌, ◌==◌, leb, Bool, true, false, ◌&&◌, ◌||◌, String, List, [], ◌∷◌, length, all, All,
  arith,
}
use lumenos_hiper_v.Monitoring.Patterns.{codes}

-- `[A-Za-z0-9]`
abbrev pub is_alphanumeric : ℕ → Bool
is_alphanumeric c = leb b'A' c && leb c b'Z' || leb b'a' c && leb c b'z' || leb b'0' c && leb c b'9'

-- `[A-Za-z0-9._-]`
abbrev pub is_id_code : ℕ → Bool
is_id_code c = is_alphanumeric c || c == b'.' || c == b'_' || c == b'-'

abbrev pub matches_id : List ℕ → Bool
matches_id [] = false
matches_id (c ∷ cs) = is_alphanumeric c && all is_id_code cs && leb (length cs) 63

-- `re.fullmatch(_BUNKER_ID_PATTERN, bunker_id)`
unfoldable pub valid_bunker_id : String → Bool
valid_bunker_id bunker_id = matches_id (codes bunker_id)

-- A character that neither separates parts of a path, nor stands for others in a glob, nor ends a text
-- of C: no slash, backslash, colon, star, question mark, bracket or null.
abbrev pub Plain : ℕ → Type 0
Plain c =
    ((c == b'/') ≡ false)
    × ((c == b'\\') ≡ false)
    × ((c == b':') ≡ false)
    × ((c == b'*') ≡ false)
    × ((c == b'?') ≡ false)
    × ((c == b'[') ≡ false)
    × ((c == b']') ≡ false)
    × ((c == 0) ≡ false)

-- The first character is no dot, so the text is neither `.` nor `..`.
abbrev pub NoDotFirst : List ℕ → Type 0
NoDotFirst [] = ⊥
NoDotFirst (c ∷ cs) = (c == b'.') ≡ false

is_id_code-Plain : (c : ℕ) → is_id_code c ≡ true → Plain c
is_id_code-Plain c h = ground arith

all-Plain : (cs : List ℕ) → all is_id_code cs ≡ true → All Plain cs
all-Plain [] h = tt
all-Plain (c ∷ cs) h = (is_id_code-Plain c (ground (arith, h)), all-Plain cs (ground (arith, h)))

matches_id-Plain :
    (cs : List ℕ)
    → matches_id cs ≡ true
    → All Plain cs × NoDotFirst cs × (1 ≤ length cs) × (length cs ≤ 64)
matches_id-Plain [] h = cc
matches_id-Plain (c ∷ cs) h = (
  (is_id_code-Plain c (ground (arith, h)), all-Plain cs (ground (arith, h))),
  ground (arith, h),
  ground (arith, h),
  ground (arith, h),
)

-- An id that matches is one part of a path and no pattern: it has between 1 and 64 characters, none of
-- them a separator, a wildcard of a glob or a null, and it does not begin with a dot.
pub valid_bunker_id-Plain :
    (bunker_id : String)
    → valid_bunker_id bunker_id ≡ true
    → All Plain (codes bunker_id)
      × NoDotFirst (codes bunker_id)
      × (1 ≤ length (codes bunker_id))
      × (length (codes bunker_id) ≤ 64)
unfolding valid_bunker_id
valid_bunker_id-Plain bunker_id h = matches_id-Plain (codes bunker_id) h
