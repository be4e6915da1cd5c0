-- ===== src/Specs/Text.antt =====
-- What src/specs.rs and src/types.rs use of `str`.
use Prim.Native.Char.{Char, code}
use Prim.Native.String.{◌++◌ as push_str}
use text.Mathlib.TextEquality.{Char-path}
use text.Mathlib.TextLemmas.{cons-append, nil-append}
use punchgate.Common.{
  ◌≡◌, refl, ap, ◌∙◌, sym, if_cases, not, ◌&&◌, Bool, true, false, Option, none, some, String,
  nat_eq, ◌==◌, arith, if◌then◌else◌, subst,
}

abbrev pub is_char : Char → Char → Bool
is_char c d = code c == code d

abbrev pub is_empty_text : String → Bool
is_empty_text String.[] = true
is_empty_text (String.◌∷◌ c s) = false

-- A text before one that is in two parts.
abbrev pub before : Char → Option (String × String) → Option (String × String)
before c none = none
before c (some (a, b)) = some (String.◌∷◌ c a, b)

-- `str::split_once`, at the first of a character.
unfoldable pub split_once : Char → String → Option (String × String)
split_once sep String.[] = none
split_once sep (String.◌∷◌ c s) =
    let later = before c (split_once sep s) in if is_char c sep then some (String.[], s) else later

abbrev pub before_last : Char → Char → String → Option (String × String) → Option (String × String)
before_last sep c s none = if is_char c sep then some (String.[], s) else none
before_last sep c s (some (a, b)) = some (String.◌∷◌ c a, b)

-- `str::rsplit_once`, at the last of a character.
unfoldable pub rsplit_once : Char → String → Option (String × String)
rsplit_once sep String.[] = none
rsplit_once sep (String.◌∷◌ c s) = before_last sep c s (rsplit_once sep s)

-- `str::strip_prefix` of one character.
unfoldable pub strip_char : Char → String → Option String
strip_char d String.[] = none
strip_char d (String.◌∷◌ c s) = if is_char c d then some s else none

-- No character of the text is the given one.
abbrev pub Lacks : Char → String → Type 0
Lacks d String.[] = Unit {0}
Lacks d (String.◌∷◌ c s) = (is_char c d ≡ false) × Lacks d s

-- `Lacks` as a test, for texts that are known.
abbrev pub is_free : Char → String → Bool
is_free c String.[] = true
is_free c (String.◌∷◌ d s) = not (is_char d c) && is_free c s

pub is_free-Lacks : (c : Char) (s : String) → is_free c s ≡ true → Lacks c s
is_free-Lacks c String.[] h = tt
is_free-Lacks c (String.◌∷◌ d s) h = ground (arith, is_free-Lacks c s)

pub Lacks-push_str : (c : Char) (s t : String) → Lacks c s → Lacks c t → Lacks c (push_str s t)
Lacks-push_str c String.[] t h k = rw nil-append k
Lacks-push_str c (String.◌∷◌ d s) t h k = rw cons-append (h.0, Lacks-push_str c s t h.1 k)

-- The two texts with the character between them.
abbrev pub joined : Char → String → String → String
joined sep a b = push_str a (String.◌∷◌ sep b)

-- `split_once("]:")`.
unfoldable pub split_close : String → Option (String × String)
unfolding strip_char
split_close String.[] = none
split_close (String.◌∷◌ c s) =
    let later = before c (split_close s) in
    elim (strip_char ":" s) [
      | none ↦ later
      | some rest ↦ if is_char c "]" then some (String.[], rest) else later
    ]

pub is_char_refl : (c : Char) → is_char c c ≡ true
is_char_refl c = ground arith

pub is_char-eq : (c d : Char) → is_char c d ≡ true → c ≡ d
is_char-eq c d h = Char-path c d (ground arith)

module _ (sep : Char) where
  pub split_once-joined :
      (a b : String) → Lacks sep a → split_once sep (joined sep a b) ≡ some (a, b)
  unfolding split_once
  split_once-joined String.[] b h = rw nil-append (ground arith)
  split_once-joined (String.◌∷◌ c a) b h = rw cons-append (ground (arith, split_once-joined a b))

  pub rsplit_once-none : (s : String) → Lacks sep s → rsplit_once sep s ≡ none
  unfolding rsplit_once
  rsplit_once-none String.[] h = refl
  rsplit_once-none (String.◌∷◌ c s) h = ground (arith, rsplit_once-none s)

  pub rsplit_once-joined :
      (a b : String) → Lacks sep b → rsplit_once sep (joined sep a b) ≡ some (a, b)
  unfolding rsplit_once
  rsplit_once-joined String.[] b h = rw nil-append (ground (arith, rsplit_once-none b))
  rsplit_once-joined (String.◌∷◌ c a) b h = rw cons-append (ground (arith, rsplit_once-joined a b))

  -- What `split_once` and `rsplit_once` find in a text: its parts, the character not in one.
  abbrev IsSplit : String → Option (String × String) → Type 0
  IsSplit s none = Lacks sep s
  IsSplit s (some (a, b)) = (s ≡ joined sep a b) × Lacks sep a

  abbrev IsLastSplit : String → Option (String × String) → Type 0
  IsLastSplit s none = Lacks sep s
  IsLastSplit s (some (a, b)) = (s ≡ joined sep a b) × Lacks sep b

  here : (c : Char) (s : String) → is_char c sep ≡ true → String.◌∷◌ c s ≡ joined sep String.[] s
  here c s e =
      ap (λ (x : Char). String.◌∷◌ x s) (is_char-eq c sep e) ∙ sym (nil-append (String.◌∷◌ sep s))

  further :
      (c : Char) {s : String} (a b : String)
      → s ≡ joined sep a b
      → String.◌∷◌ c s ≡ joined sep (String.◌∷◌ c a) b
  further c a b e = ap (λ (x : String). String.◌∷◌ c x) e ∙ sym (cons-append c a (String.◌∷◌ sep b))

  before-IsSplit :
      (c : Char) (s : String) (o : Option (String × String))
      → is_char c sep ≡ false
      → IsSplit s o
      → IsSplit (String.◌∷◌ c s) (before c o)
  before-IsSplit c s none e h = (e, h)
  before-IsSplit c s (some (a, b)) e h = (further c a b h.0, (e, h.1))

  split_once-IsSplit : (s : String) → IsSplit s (split_once sep s)
  unfolding split_once
  split_once-IsSplit String.[] = tt
  split_once-IsSplit (String.◌∷◌ c s) =
      if_cases (IsSplit (String.◌∷◌ c s)) (is_char c sep) (λ e. (here c s e, tt))
        (λ e. before-IsSplit c s (split_once sep s) e (split_once-IsSplit s))

  before_last-IsLastSplit :
      (c : Char) (s : String) (o : Option (String × String))
      → IsLastSplit s o
      → IsLastSplit (String.◌∷◌ c s) (before_last sep c s o)
  before_last-IsLastSplit c s none h =
      if_cases (IsLastSplit (String.◌∷◌ c s)) (is_char c sep) (λ e. (here c s e, h)) (λ e. (e, h))
  before_last-IsLastSplit c s (some (a, b)) h = (further c a b h.0, h.1)

  rsplit_once-IsLastSplit : (s : String) → IsLastSplit s (rsplit_once sep s)
  unfolding rsplit_once
  rsplit_once-IsLastSplit String.[] = tt
  rsplit_once-IsLastSplit (String.◌∷◌ c s) =
      before_last-IsLastSplit c s (rsplit_once sep s) (rsplit_once-IsLastSplit s)

  -- The parts that `split_once` returns are the text, and the first lacks the character.
  pub split_once_sound :
      (s : String) {a b : String}
      → split_once sep s ≡ some (a, b)
      → (s ≡ joined sep a b) × Lacks sep a
  split_once_sound s h = subst (IsSplit s) h (split_once-IsSplit s)

  -- The parts that `rsplit_once` returns are the text, and the last lacks the character.
  pub rsplit_once_sound :
      (s : String) {a b : String}
      → rsplit_once sep s ≡ some (a, b)
      → (s ≡ joined sep a b) × Lacks sep b
  rsplit_once_sound s h = subst (IsLastSplit s) h (rsplit_once-IsLastSplit s)

-- `]:` before a text.
close_append : (b : String) → push_str "]:" b ≡ String.◌∷◌ "]" (String.◌∷◌ ":" b)
close_append b =
    cons-append "]" ":" b
    ∙ ap (λ (x : String). String.◌∷◌ "]" x)
        (cons-append ":" "" b ∙ ap (λ (x : String). String.◌∷◌ ":" x) (nil-append b))

pub split_close-bracket :
    (a b : String) → Lacks "]" a → split_close (push_str a (push_str "]:" b)) ≡ some (a, b)
unfolding split_close
split_close-bracket String.[] b h = rw (nil-append, close_append) (ground arith)
split_close-bracket (String.◌∷◌ c a) b h = rw cons-append (ground (arith, split_close-bracket a b))

-- The first character of a text that is not empty decides, whatever is behind it.
pub strip_char-push_str :
    (d : Char) (s t : String)
    → is_empty_text s ≡ false
    → strip_char d s ≡ none
    → strip_char d (push_str s t) ≡ none
unfolding strip_char
strip_char-push_str d String.[] t e h = absurd (ground (arith, e))
strip_char-push_str d (String.◌∷◌ c s) t e h = rw cons-append (ground (arith, h))

-- `str::strip_prefix` of a text.
unfoldable pub strip_prefix : String → String → Option String
strip_prefix String.[] s = some s
strip_prefix (String.◌∷◌ d p) String.[] = none
strip_prefix (String.◌∷◌ d p) (String.◌∷◌ c s) =
    let later = strip_prefix p s in if is_char d c then later else none

pub strip_prefix-push_str : (p s : String) → strip_prefix p (push_str p s) ≡ some s
unfolding strip_prefix
strip_prefix-push_str String.[] s = rw nil-append refl
strip_prefix-push_str (String.◌∷◌ d p) s =
    rw (cons-append, is_char_refl d) (strip_prefix-push_str p s)

-- `str::contains` of a text.
unfoldable pub contains_text : String → String → Bool
unfolding strip_prefix
contains_text p String.[] = is_empty_text p
contains_text p (String.◌∷◌ c s) = elim (strip_prefix p (String.◌∷◌ c s)) [
  | some rest ↦ true
  | none ↦ contains_text p s
]
