-- ===== src/Macros/MessageAttr/Read.antt =====
-- What is read back from the text of a `#[message(…)]` attribute.
use mathlib.Core.List.{append_assoc, append-nil}
use actix_send.Prelude.{
  ℕ, ◌≡◌, ◌≢◌, refl, sym, ap, ◌∙◌, Bool, true, false, List, [], ◌∷◌, ◌++◌, All, All-zip, length,
  ◌==◌, if◌then◌else◌, Bool-cases, inl, inr, arith,
}
use actix_send.Text.{Text, codes, contains, split, is_prefix, cons_head}
use actix_send.Macros.MessageAttr.{last_part, pop, pop_times, unquoted, read_attr}

-- A text without quotes, spaces and equality signs.
abbrev pub IsBare : Text → Type 0
IsBare s = All (λ c. (c ≢ 34) × (c ≢ 32) × (c ≢ 61)) s

pop-append : (s : Text) (c : ℕ) → pop (s ++ c ∷ []) ≡ s
unfolding pop
pop-append [] c = refl
pop-append (d ∷ []) c = refl
pop-append (d ∷ e ∷ s) c = ap (λ t. d ∷ t) (pop-append (e ∷ s) c)

unquoted-append : (s t : Text) → unquoted (s ++ t) ≡ unquoted s ++ unquoted t
unfolding unquoted
unquoted-append [] t = refl
unquoted-append (c ∷ s) t = ground (arith, unquoted-append s t)

unquoted_bare : (s : Text) → IsBare s → unquoted s ≡ s
unfolding unquoted
unquoted_bare [] b = refl
unquoted_bare (c ∷ s) b = ground (arith, b.0, unquoted_bare s b.1)

abbrev Lacks : ℕ → Text → Type 0
Lacks sep s = All (λ c. c ≢ sep) s

split_one : (sep : ℕ) (t : Text) → Lacks sep t → split sep t ≡ t ∷ []
unfolding split cons_head
split_one sep [] l = refl
split_one sep (c ∷ t) l = ground (arith, l.0, split_one sep t l.1)

last_part-cons : (p q : Text) (ps : List Text) → last_part (p ∷ q ∷ ps) ≡ last_part (q ∷ ps)
unfolding last_part
last_part-cons p q ps = refl

split_parts :
    (sep : ℕ) (s t : Text)
    → Lacks sep t
    → (p q : Text) × (ps : List Text) × (split sep (s ++ sep ∷ t) ≡ p ∷ q ∷ ps)
      × (last_part (q ∷ ps) ≡ t)
unfolding split cons_head last_part
split_parts sep [] t l = ([], t, [], ground (arith, split_one sep t l), refl)
split_parts sep (c ∷ s) t l =
    let (p, q, ps, parts, at_last) = split_parts sep s t l in
    elim (Bool-cases (c == sep)) [
      | inl here ↦ ([], p, q ∷ ps, rw (here, parts), at_last)
      | inr on ↦ (c ∷ p, q, ps, rw (on, parts), at_last)
    ]

-- Behind the last separator.
last_part-split : (sep : ℕ) (s t : Text) → Lacks sep t → last_part (split sep (s ++ sep ∷ t)) ≡ t
last_part-split sep s t l =
    let (p, q, ps, parts, at_last) = split_parts sep s t l in
    ap last_part parts ∙ last_part-cons p q ps ∙ at_last

contains-append : (needle s t : Text) → contains needle t ≡ true → contains needle (s ++ t) ≡ true
unfolding contains
contains-append needle [] t h = h
contains-append needle (c ∷ s) t h = ground (arith, contains-append needle s t h)

-- `(result = "T")`, as the tokens of the attribute are printed.
abbrev pub attr_text : Text → Text
attr_text ty = codes "(result " ++ 61 ∷ (codes " \"" ++ ty ++ codes "\")")

-- `(result = "T", blocking)`
abbrev pub blocking_text : Text → Text
blocking_text ty = codes "(result " ++ 61 ∷ (codes " \"" ++ ty ++ codes "\", blocking)")

abbrev lacks : ℕ → Text → Bool
lacks sep [] = true
lacks sep (c ∷ s) = if c == sep then false else lacks sep s

lacks-Lacks : (sep : ℕ) (s : Text) → lacks sep s ≡ true → Lacks sep s
lacks-Lacks sep [] h = tt
lacks-Lacks sep (c ∷ s) h = (ground arith, lacks-Lacks sep s (ground arith))

Lacks-bare : (s : Text) → IsBare s → Lacks 61 s
Lacks-bare s b = All-zip (λ c x y. x.2) s b b

Lacks-append : (s t : Text) → Lacks 61 s → Lacks 61 t → Lacks 61 (s ++ t)
Lacks-append [] t l k = k
Lacks-append (c ∷ s) t l k = (l.0, Lacks-append s t l.1 k)

-- Reading the text of an attribute, up to the flag.
read_until_flag :
    (ty after : Text)
    → IsBare ty
    → Lacks 61 after
    → pop
        (unquoted (last_part (split 61 (codes "(result " ++ 61 ∷ ((codes " \"" ++ ty) ++ after)))))
      ≡ pop (ty ++ unquoted after)
unfolding unquoted
read_until_flag ty after b l =
    ap (λ x. pop (unquoted x))
      (last_part-split 61 (codes "(result ") (32 ∷ 34 ∷ (ty ++ after))
        (ground arith, (ground arith, Lacks-append ty after (Lacks-bare ty b) l)))
    ∙ ap pop (unquoted-append ty after)
    ∙ ap (λ x. pop (x ++ unquoted after)) (unquoted_bare ty b)

abbrev backwards : Text → Text
backwards [] = []
backwards (c ∷ r) = backwards r ++ c ∷ []

pop_times-append : (s r : Text) → pop_times (length r) (s ++ backwards r) ≡ s
unfolding pop_times
pop_times-append s [] = append-nil s
pop_times-append s (c ∷ r) =
    ap (λ x. pop_times (length r) (pop x)) (sym (append_assoc s (backwards r) (c ∷ [])))
    ∙ ap (pop_times (length r)) (pop-append (s ++ backwards r) c)
    ∙ pop_times-append s r

if_pair :
    (found : Bool) (cut kept : Text)
    → ◌≡◌ {A = Text × Bool}
        (if found then cut else kept, found)
        (if found then (cut, true) else (kept, false))
if_pair true cut kept = refl
if_pair false cut kept = refl

-- For a type's text without quotes, spaces and equality signs: the text of a blocking message is
-- read back as the type and the flag. That of any other message is read back as the type without the
-- flag, unless the type's own text contains `blocking`; then the flag is read, and the type loses
-- its last nine characters.
pub read_attr_lem :
    (ty : Text)
    → IsBare ty
    → (read_attr (blocking_text ty) ≡ (ty, true))
      × (read_attr (attr_text ty)
          ≡ (if contains (codes "blocking") ty then (pop_times 9 ty, true) else (ty, false)))
unfolding read_attr unquoted contains is_prefix
read_attr_lem ty b = (flagged, unflagged)
  where
    plain_text : pop (unquoted (last_part (split 61 (attr_text ty)))) ≡ ty
    plain_text =
        read_until_flag ty (codes "\")") b (lacks-Lacks 61 (codes "\")") refl) ∙ pop-append ty 41

    blocking : pop (unquoted (last_part (split 61 (blocking_text ty)))) ≡ ty ++ codes ",blocking"
    blocking =
        read_until_flag ty (codes "\", blocking)") b (lacks-Lacks 61 (codes "\", blocking)") refl)
        ∙ ap pop (sym (append_assoc ty (codes ",blocking") (41 ∷ [])))
        ∙ pop-append (ty ++ codes ",blocking") 41

    flagged : read_attr (blocking_text ty) ≡ (ty, true)
    flagged = rw (
      blocking,
      contains-append (codes "blocking") ty (codes ",blocking") refl,
      pop_times-append ty (codes "gnikcolb,"),
    )

    unflagged :
        read_attr (attr_text ty)
        ≡ (if contains (codes "blocking") ty then (pop_times 9 ty, true) else (ty, false))
    unflagged = rw plain_text (if_pair (contains (codes "blocking") ty) (pop_times 9 ty) ty)
