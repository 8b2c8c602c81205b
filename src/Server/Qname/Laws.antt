-- ===== src/Server/Qname/Laws.antt =====
-- Which token a DNS name carries.
use oastrix.Prelude.{
  append_assoc, ℕ, ◌≡◌, ◌≢◌, ◌↔◌, sym, ◌∙◌, ap, Str, false, List, [], ◌∷◌, ◌++◌, arith, length,
  length-append, Lacks, to_lower, has_suffix, trim_suffix, has_suffix-append, trim_suffix-append,
  append-of-has_suffix, split, split_of_Lacks, split-append, str_eq, str_eq_iff, Bool-cases, inl,
  inr,
}
use oastrix.Server.Qname.{extract_token_from_qname}

-- A name below the domain is longer than the domain.
subdomain-ne : (s domain : Str) → str_eq (s ++ b'.' ∷ domain) domain ≡ false
subdomain-ne s domain = elim (Bool-cases (str_eq (s ++ b'.' ∷ domain) domain)) [
  | inr other ↦ other
  | inl same ↦ absurd (
      omega (
        arith,
        ap (length {A = ℕ}) ((str_eq_iff (s ++ b'.' ∷ domain) domain).0 same),
        length-append s (b'.' ∷ domain),
      ))
]

-- Below the domain the token is the first label.
extract-below :
    (s domain : Str)
    → extract_token_from_qname (s ++ b'.' ∷ to_lower domain) domain ≡ (split s b'.').0
unfolding extract_token_from_qname
extract-below s domain = rw (
  has_suffix-append s (b'.' ∷ to_lower domain),
  subdomain-ne s (to_lower domain),
  trim_suffix-append s (b'.' ∷ to_lower domain),
)

-- Of a name below the lower-case domain the token is the first label, which has no dot: the label
-- itself, or what stands before the first dot.
pub extract_token_from_qname-first :
    (tok rest domain : Str)
    → Lacks b'.' tok
    → (extract_token_from_qname (tok ++ b'.' ∷ to_lower domain) domain ≡ tok)
      × (extract_token_from_qname (tok ++ (b'.' ∷ rest ++ b'.' ∷ to_lower domain)) domain ≡ tok)
extract_token_from_qname-first tok rest domain h = (
  extract-below tok domain ∙ ap (λ (p : Str × List Str). p.0) (split_of_Lacks tok b'.' h),
  ap (λ q. extract_token_from_qname q domain)
        (sym (append_assoc tok (b'.' ∷ rest) (b'.' ∷ to_lower domain)))
      ∙ extract-below (tok ++ b'.' ∷ rest) domain
      ∙ ap (λ (p : Str × List Str). p.0) (split-append tok rest b'.' h),
)

-- Outside the domain there is no token.
extract-outside :
    (qname domain : Str)
    → has_suffix qname (b'.' ∷ to_lower domain) ≡ false
    → extract_token_from_qname qname domain ≡ []
unfolding extract_token_from_qname
extract-outside qname domain outside = ground arith

-- A name carries a token that is not empty exactly when it is below the lower-case domain and its
-- first label is that token.
pub extract_token_from_qname_iff :
    (qname domain tok : Str)
    → tok ≢ []
    → (extract_token_from_qname qname domain ≡ tok)
      ↔ ((pre : Str) × (qname ≡ pre ++ b'.' ∷ to_lower domain) × ((split pre b'.').0 ≡ tok))
extract_token_from_qname_iff qname domain tok ne = (to, from)
  where
    below : Str
    below = b'.' ∷ to_lower domain

    from :
        (pre : Str) × (qname ≡ pre ++ below) × ((split pre b'.').0 ≡ tok)
        → extract_token_from_qname qname domain ≡ tok
    from (pre, same, first) =
        ap (λ q. extract_token_from_qname q domain) same ∙ extract-below pre domain ∙ first

    to :
        extract_token_from_qname qname domain ≡ tok
        → (pre : Str) × (qname ≡ pre ++ below) × ((split pre b'.').0 ≡ tok)
    to h = elim (Bool-cases (has_suffix qname below)) [
      | inl inside ↦
          let same = append-of-has_suffix qname below inside in
          (
            trim_suffix qname below,
            sym same,
            sym (extract-below (trim_suffix qname below) domain)
                ∙ ap (λ q. extract_token_from_qname q domain) same
                ∙ h,
          )
      | inr outside ↦ absurd (ne (sym h ∙ extract-outside qname domain outside))
    ]
