-- ===== src/Cli/Xml.antt =====
-- `xml_escape` of src/main.rs.
use Prim.Native.Char.{Char}
use Prim.Native.String.{◌++◌ as push_str}
use text.Mathlib.TextLemmas.{cons-append, nil-append, append_assoc}
use punchgate.Common.{
  ◌≡◌, refl, ap, ◌∙◌, sym, true, false, String, if◌then◌else◌, if_cases, nat_eq, Bool-cases, inl,
  inr,
}
use punchgate.Specs.Text.{is_char, is_char-eq, Lacks, Lacks-push_str, is_free, is_free-Lacks}

-- `str::replace` of a character.
unfoldable pub replace : Char → String → String → String
replace c by String.[] = String.[]
replace c by (String.◌∷◌ d s) =
    let rest = replace c by s in if is_char d c then push_str by rest else String.◌∷◌ d rest

unfoldable pub xml_escape : String → String
unfolding replace
xml_escape input =
    replace "'" "&apos;"
      (replace "\"" "&quot;" (replace ">" "&gt;" (replace "<" "&lt;" (replace "&" "&amp;" input))))

-- The reference: one pass, with the entity of each character.
abbrev pub entity : Char → String
entity c =
    if is_char c "&"
    then "&amp;"
    else if is_char c "<"
    then "&lt;"
    else if is_char c ">"
    then "&gt;"
    else if is_char c "\""
    then "&quot;"
    else if is_char c "'"
    then "&apos;"
    else String.◌∷◌ c String.[]

abbrev pub escape_each : String → String
escape_each String.[] = String.[]
escape_each (String.◌∷◌ c s) = push_str (entity c) (escape_each s)

replace-push_str :
    (c : Char) (by s t : String)
    → replace c by (push_str s t) ≡ push_str (replace c by s) (replace c by t)
unfolding replace
replace-push_str c by String.[] t = rw (nil-append, nil-append) refl
replace-push_str c by (String.◌∷◌ d s) t =
    rw (cons-append, replace)
      (elim (Bool-cases (is_char d c)) [
        | inl e ↦ rw e (
            ap (push_str by) (replace-push_str c by s t)
            ∙ sym (append_assoc by (replace c by s) (replace c by t)))
        | inr e ↦ rw e (
            ap (λ (x : String). String.◌∷◌ d x) (replace-push_str c by s t)
            ∙ sym (cons-append d (replace c by s) (replace c by t)))
      ])

xml_escape-push_str :
    (s t : String) → xml_escape (push_str s t) ≡ push_str (xml_escape s) (xml_escape t)
unfolding xml_escape
xml_escape-push_str s t =
    rw
      (
        replace-push_str "&" "&amp;" s t,
        replace-push_str "<" "&lt;" (replace "&" "&amp;" s) (replace "&" "&amp;" t),
      )
      (rw
        (
          replace-push_str ">" "&gt;" (replace "<" "&lt;" (replace "&" "&amp;" s))
              (replace "<" "&lt;" (replace "&" "&amp;" t)),
          replace-push_str "\"" "&quot;"
              (replace ">" "&gt;" (replace "<" "&lt;" (replace "&" "&amp;" s)))
              (replace ">" "&gt;" (replace "<" "&lt;" (replace "&" "&amp;" t))),
          replace-push_str "'" "&apos;"
              (replace "\"" "&quot;"
                (replace ">" "&gt;" (replace "<" "&lt;" (replace "&" "&amp;" s))))
              (replace "\"" "&quot;"
                (replace ">" "&gt;" (replace "<" "&lt;" (replace "&" "&amp;" t)))),
        )
        refl)

-- A character that is one of the five is known; one that is none of them passes every test.
xml_escape-char : (c : Char) → xml_escape (String.◌∷◌ c String.[]) ≡ entity c
unfolding xml_escape nat_eq
xml_escape-char c = elim (Bool-cases (is_char c "&")) [
  | inl e ↦ rw (is_char-eq c "&" e) refl
  | inr a ↦ elim (Bool-cases (is_char c "<")) [
    | inl e ↦ rw (is_char-eq c "<" e) refl
    | inr b ↦ elim (Bool-cases (is_char c ">")) [
      | inl e ↦ rw (is_char-eq c ">" e) refl
      | inr d ↦ elim (Bool-cases (is_char c "\"")) [
        | inl e ↦ rw (is_char-eq c "\"" e) refl
        | inr q ↦ elim (Bool-cases (is_char c "'")) [
          | inl e ↦ rw (is_char-eq c "'" e) refl
          | inr p ↦ rw (a, b, d, q, p) refl
        ]
      ]
    ]
  ]
]

xml_escape-escape_each : (s : String) → xml_escape s ≡ escape_each s
unfolding xml_escape
xml_escape-escape_each String.[] = refl
xml_escape-escape_each (String.◌∷◌ c s) =
    ap xml_escape
      (sym (cons-append c String.[] s ∙ ap (λ (x : String). String.◌∷◌ c x) (nil-append s)))
    ∙ xml_escape-push_str (String.◌∷◌ c String.[]) s
    ∙ ap (λ (x : String). push_str x (xml_escape s)) (xml_escape-char c)
    ∙ ap (push_str (entity c)) (xml_escape-escape_each s)

-- No entity has the character.
abbrev AreFree : Char → Type 0
AreFree c =
    (is_free c "&amp;" ≡ true)
    × (is_free c "&lt;" ≡ true)
    × (is_free c "&gt;" ≡ true)
    × (is_free c "&quot;" ≡ true)
    × (is_free c "&apos;" ≡ true)

-- A character that is none of the five is no `c`.
abbrev IsSpecial : Char → Type 0
IsSpecial c =
    (d : Char)
    → is_char d "<" ≡ false
    → is_char d ">" ≡ false
    → is_char d "\"" ≡ false
    → is_char d "'" ≡ false
    → is_char d c ≡ false

escape_each-Lacks : (c : Char) → AreFree c → IsSpecial c → (s : String) → Lacks c (escape_each s)
escape_each-Lacks c f k String.[] = tt
escape_each-Lacks c (f1, f2, f3, f4, f5) k (String.◌∷◌ d s) =
    Lacks-push_str c (entity d) (escape_each s)
      (if_cases (Lacks c) (is_char d "&") (λ _. is_free-Lacks c "&amp;" f1)
        (λ _.
          if_cases (Lacks c) (is_char d "<") (λ _. is_free-Lacks c "&lt;" f2)
            (λ lt.
              if_cases (Lacks c) (is_char d ">") (λ _. is_free-Lacks c "&gt;" f3)
                (λ gt.
                  if_cases (Lacks c) (is_char d "\"") (λ _. is_free-Lacks c "&quot;" f4)
                    (λ quot.
                      if_cases (Lacks c) (is_char d "'") (λ _. is_free-Lacks c "&apos;" f5)
                        (λ apos. (k d lt gt quot apos, tt)))))))
      (escape_each-Lacks c (f1, f2, f3, f4, f5) k s)

-- Escaping is one pass that writes the entity of each character, so no entity is escaped twice,
-- and what is escaped has no bracket and no quote.
pub xml_escape_lem :
    (s : String)
    → (xml_escape s ≡ escape_each s)
      × Lacks "<" (xml_escape s)
      × Lacks ">" (xml_escape s)
      × Lacks "\"" (xml_escape s)
      × Lacks "'" (xml_escape s)
unfolding nat_eq
xml_escape_lem s =
    let e = xml_escape-escape_each s in
    (
      e,
      rw e (escape_each-Lacks "<" (refl, refl, refl, refl, refl) (λ d lt gt quot apos. lt) s),
      rw e (escape_each-Lacks ">" (refl, refl, refl, refl, refl) (λ d lt gt quot apos. gt) s),
      rw e (escape_each-Lacks "\"" (refl, refl, refl, refl, refl) (λ d lt gt quot apos. quot) s),
      rw e (escape_each-Lacks "'" (refl, refl, refl, refl, refl) (λ d lt gt quot apos. apos) s),
    )
