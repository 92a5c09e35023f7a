-- ===== src/Migrator/Files.antt =====
-- The migration files: loadMigrations and extractUpSQL of internal/migration/migrator.go, with what
-- they use of Go's `strings` and `strconv`. A text is the list of its code points.
use rivo.Prelude.{
  ℕ, ◌+◌, ◌-◌, ◌*◌, ◌^◌, String, Bool, true, false, not, ◌&&◌, ◌||◌, Option, none, some, List, [],
  ◌∷◌, ◌==◌, leb, ltb, if◌then◌else◌, sort_by,
}
use mathlib.Core.List.{reverse}
use rivo.Prelude.Int.{ℤ, pos, negsuc, ltb_ℤ}
use Prim.Native.Char.{code}

abbrev pub Text : Type 0
Text = List ℕ

abbrev pub codes : String → Text
codes String.[] = []
codes (String.◌∷◌ c s) = code c ∷ codes s

pub record DirEntry : Type 0 where
  pub name : Text
  pub is_dir : Bool
  pub content : Text

pub record Migration : Type 0 where
  pub version : ℤ
  pub up_sql : Text

-- What follows a prefix, if the text has it.
unfoldable pub after_prefix : Text → Text → Option Text
after_prefix [] xs = some xs
after_prefix (p ∷ ps) [] = none
after_prefix (p ∷ ps) (x ∷ xs) = let rest = after_prefix ps xs in if p == x then rest else none

abbrev keep_first : ℕ → Option (Text × Text) → Option (Text × Text)
keep_first x none = none
keep_first x (some (before, after)) = some (x ∷ before, after)

abbrev cut_here : Option Text → Option (Text × Text) → Option (Text × Text)
cut_here (some after) later = some ([], after)
cut_here none later = later

-- The text before and after the first occurrence of a mark, as `strings.Index` finds it.
unfoldable pub cut : (mark : Text) → Text → Option (Text × Text)
unfolding after_prefix
cut mark [] = cut_here (after_prefix mark []) none
cut mark (x ∷ xs) =
    let later = keep_first x (cut mark xs) in cut_here (after_prefix mark (x ∷ xs)) later

-- `unicode.IsSpace`
abbrev is_space : ℕ → Bool
is_space c =
    leb 9 c && leb c 13
    || c == 0x20
    || c == 0x85
    || c == 0xA0
    || c == 0x1680
    || leb 0x2000 c && leb c 0x200A
    || c == 0x2028
    || c == 0x2029
    || c == 0x202F
    || c == 0x205F
    || c == 0x3000

trim_left : Text → Text
trim_left [] = []
trim_left (c ∷ cs) = let rest = trim_left cs in if is_space c then rest else c ∷ cs

-- `strings.TrimSpace`
unfoldable pub trim_space : Text → Text
unfolding trim_left
trim_space t = reverse (trim_left (reverse (trim_left t)))

abbrev before_mark : Option (Text × Text) → Text → Text
before_mark none t = t
before_mark (some (before, _)) t = before

abbrev up_part : Option (Text × Text) → Text → Text
up_part none content = content
up_part (some (_, after)) content =
    trim_space (before_mark (cut (codes "-- +migrate Down") after) after)

-- `extractUpSQL`: a file without the first mark is taken whole.
unfoldable pub extract_up_sql : Text → Text
unfolding cut trim_space
extract_up_sql content = up_part (cut (codes "-- +migrate Up") content) content

-- `strings.HasSuffix`
has_suffix : Text → Text → Bool
unfolding after_prefix
has_suffix t suffix = elim (after_prefix (reverse suffix) (reverse t)) [
  | none ↦ false
  | some _ ↦ true
]

digits : (value : ℕ) → Text → Option ℕ
digits value [] = some value
digits value (c ∷ cs) =
    let rest = digits (value * 10 + (c - b'0')) cs in
    if leb b'0' c && leb c b'9' then rest else none

-- At least one digit.
abbrev number : Text → Option ℕ
number [] = none
number (c ∷ cs) = digits 0 (c ∷ cs)

abbrev within : (limit : ℕ) → (ℕ → ℤ) → Option ℕ → Option ℤ
within limit f none = none
within limit f (some n) = if ltb n limit then some (f n) else none

abbrev minus : ℕ → ℤ
minus n = if n == 0 then pos 0 else negsuc (n - 1)

-- `strconv.Atoi`, for an `int` of 64 bits.
unfoldable pub atoi : Text → Option ℤ
unfolding digits
atoi [] = none
atoi (c ∷ cs) =
    if c == b'-'
    then within (2 ^ 63 + 1) minus (number cs)
    else if c == b'+'
    then within (2 ^ 63) pos (number cs)
    else within (2 ^ 63) pos (number (c ∷ cs))

abbrev version_of : Option (Text × Text) → Option ℤ
version_of none = none
version_of (some (first, _)) = atoi first

abbrev migration_of : Option ℤ → Text → Option Migration
migration_of none sql = none
migration_of (some v) [] = none
migration_of (some v) (c ∷ cs) = some (record { version = v; up_sql = c ∷ cs })

-- One entry of the folder: a file `<version>_<name>.sql` with SQL in it.
unfoldable pub load_entry : DirEntry → Option Migration
unfolding has_suffix cut atoi extract_up_sql
load_entry f =
    if f.is_dir || not (has_suffix f.name (codes ".sql"))
    then none
    else migration_of (version_of (cut (codes "_") f.name)) (extract_up_sql f.content)

abbrev add_found : Option Migration → List Migration → List Migration
add_found none ms = ms
add_found (some m) ms = m ∷ ms

unfoldable pub load_all : List DirEntry → List Migration
unfolding load_entry
load_all [] = []
load_all (f ∷ fs) = add_found (load_entry f) (load_all fs)

-- `loadMigrations`: the embedded folder can always be read. Migrations of one version, which
-- `sort.Slice` may order in any way, stay in the order of the files.
unfoldable pub load_migrations : List DirEntry → List Migration
unfolding load_all
load_migrations files = sort_by (λ a b. ltb_ℤ a.version b.version) (load_all files)
