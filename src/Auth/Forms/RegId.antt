-- ===== src/Auth/Forms/RegId.antt =====
-- The registration ids that `extractStudentRegIdFromEmail` of
-- frontend/src/shared/modules/auth/utils.ts reads.
use mathlib.Core.Path.{subst}
use mathlib.Core.List.{append_assoc}
use giki_wallet.Common.{
  ℕ, ◌≡◌, ◌↔◌, ◌⊎◌, refl, sym, ap, ◌∙◌, arith, true, Bool-cases, inl, inr, Option, some, none,
  String, List, [], ◌∷◌, ◌++◌, All, codes_eq, codes_eq_iff, nat_eq,
}
use giki_wallet.Auth.Forms.{
  is_digit, span_digits, after_word, domain, with_digits, then_digits, or_match, Programme,
  undergraduate, gcs, gcv, gee, gem, word_of, match_programme, match_student, normalized,
  extract_student_reg_id,
}

abbrev pub Digits : List ℕ → Type 0
Digits ds = All (λ c. is_digit c ≡ true) ds

-- The word of a programme and digits, at least one.
pub record IsRegId (id : List ℕ) : Type 0 where
  pub programme : Programme
  pub first : ℕ
  pub others : List ℕ
  pub digits : Digits (first ∷ others)
  pub spelled : id ≡ word_of programme ++ first ∷ others

abbrev Spans : List ℕ → List ℕ × List ℕ → Type 0
Spans cs s = (cs ≡ s.0 ++ s.1) × Digits s.0

span-Spans : (cs : List ℕ) → Spans cs (span_digits cs)
unfolding span_digits
span-Spans [] = (refl, tt)
span-Spans (c ∷ cs) =
    let (parts, digits) = span-Spans cs in
    elim (Bool-cases (is_digit c)) [
      | inl t ↦ rw t (ap (λ l. c ∷ l) parts, (t, digits))
      | inr f ↦ rw f (refl, tt)
    ]

span-Digits : (ds rest : List ℕ) → Digits ds → span_digits (ds ++ 64 ∷ rest) ≡ (ds, 64 ∷ rest)
unfolding span_digits
span-Digits [] rest h = refl
span-Digits (d ∷ ds) rest (t, h) = rw t (rw (span-Digits ds rest h) refl)

after_word-some : (word cs rest : List ℕ) → after_word word cs ≡ some rest → cs ≡ word ++ rest
unfolding after_word
after_word-some [] cs rest e = cc
after_word-some (d ∷ ds) [] rest e = cc
after_word-some (d ∷ ds) (c ∷ cs) rest e = elim (Bool-cases (nat_eq d c)) [
  | inl t ↦
      let tail : cs ≡ ds ++ rest = after_word-some ds cs rest (rw t at e) in
      let head : d ≡ c = ground arith in cc
  | inr f ↦ absurd (no (rw f at e))
]
  where
    no : none ≡ some rest → ⊥
    no e = cc

with_digits-some :
    (word : List ℕ) (s : List ℕ × List ℕ) (id : List ℕ)
    → with_digits word s ≡ some id
    → (c : ℕ) × (ds : List ℕ) × (s.0 ≡ c ∷ ds) × (id ≡ word ++ c ∷ ds) × (s.1 ≡ domain)
with_digits-some word ([], rest) id e = cc
with_digits-some word (c ∷ ds, rest) id e = elim (Bool-cases (codes_eq rest domain)) [
  | inl t ↦
      let found : some (word ++ c ∷ ds) ≡ some id = rw t at e in
      (c, ds, refl, cc, (codes_eq_iff rest domain).0 t)
  | inr f ↦ absurd (no (rw f at e))
]
  where
    no : none ≡ some id → ⊥
    no e = cc

-- What the text is, if a programme matches it.
abbrev Reads : List ℕ → List ℕ → Type 0
Reads cs id = IsRegId id × (cs ≡ id ++ domain)

module _ (p : Programme) (cs id : List ℕ) where
  read_from :
      (rest : List ℕ)
      → cs ≡ word_of p ++ rest
      → with_digits (word_of p) (span_digits rest) ≡ some id
      → Reads cs id
  read_from rest begins e =
      let (c, ds, digits, spelled, ends) = with_digits-some (word_of p) (span_digits rest) id e in
      let (parts, all_digits) = span-Spans rest in
      let whole : rest ≡ (c ∷ ds) ++ domain =
        parts ∙ ap (λ l. l ++ (span_digits rest).1) digits ∙ ap (λ l. (c ∷ ds) ++ l) ends in
      (
        record {
          programme = p;
          first = c;
          others = ds;
          digits = subst Digits digits all_digits;
          spelled = spelled;
        },
        begins
            ∙ ap (λ l. word_of p ++ l) whole
            ∙ sym (append_assoc (word_of p) (c ∷ ds) domain)
            ∙ ap (λ l. l ++ domain) (sym spelled),
      )

  match_programme-Reads : match_programme p cs ≡ some id → Reads cs id
  unfolding match_programme
  match_programme-Reads e = by_rest (after_word (word_of p) cs) refl e
    where
      by_rest :
          (o : Option (List ℕ))
          → after_word (word_of p) cs ≡ o
          → then_digits (word_of p) o ≡ some id
          → Reads cs id
      by_rest none h k = cc
      by_rest (some rest) h k = read_from rest (after_word-some (word_of p) cs rest h) k

or_match-some :
    (o later : Option (List ℕ)) (id : List ℕ)
    → or_match o later ≡ some id
    → (o ≡ some id) ⊎ (later ≡ some id)
or_match-some none later id e = inr e
or_match-some (some x) later id e = inl e

match_student-Reads : (cs id : List ℕ) → match_student cs ≡ some id → Reads cs id
unfolding match_student
match_student-Reads cs id e = elim (or_match-some _ _ id e) [
  | inl h ↦ match_programme-Reads undergraduate cs id h
  | inr e ↦ elim (or_match-some _ _ id e) [
    | inl h ↦ match_programme-Reads gcs cs id h
    | inr e ↦ elim (or_match-some _ _ id e) [
      | inl h ↦ match_programme-Reads gcv cs id h
      | inr e ↦ elim (or_match-some _ _ id e) [
        | inl h ↦ match_programme-Reads gee cs id h
        | inr h ↦ match_programme-Reads gem cs id h
      ]
    ]
  ]
]

matched :
    (p : Programme) (c : ℕ) (ds : List ℕ)
    → Digits (c ∷ ds)
    → match_student ((word_of p ++ (c ∷ ds)) ++ domain) ≡ some (word_of p ++ c ∷ ds)
unfolding match_student match_programme after_word
matched undergraduate c ds h = rw (span-Digits (c ∷ ds) _ h) refl
matched gcs c ds h = rw (span-Digits (c ∷ ds) _ h) refl
matched gcv c ds h = rw (span-Digits (c ∷ ds) _ h) refl
matched gee c ds h = rw (span-Digits (c ∷ ds) _ h) refl
matched gem c ds h = rw (span-Digits (c ∷ ds) _ h) refl

Reads-match : (cs id : List ℕ) → Reads cs id → match_student cs ≡ some id
Reads-match cs id (r, whole) =
    let split : cs ≡ (word_of r.programme ++ (r.first ∷ r.others)) ++ domain =
      whole ∙ ap (λ l. l ++ domain) r.spelled in
    ap match_student split ∙ matched r.programme r.first r.others r.digits ∙ ap some (sym r.spelled)

-- The id read from an e-mail address is the one that, before "@giki.edu.pk", makes up the address,
-- apart from the case of its letters and the space around it: an address has the id if and only if
-- it is made up so.
pub extract_student_reg_id_iff :
    (email : String) (id : List ℕ)
    → (extract_student_reg_id email ≡ some id) ↔ (IsRegId id × (normalized email ≡ id ++ domain))
unfolding extract_student_reg_id
extract_student_reg_id_iff email id =
    (match_student-Reads (normalized email) id, Reads-match (normalized email) id)
