-- ===== src/Reconciliation/Exceptions/Keys.antt =====
-- Keeping the first specification of each source key loses no key.
use treasury_os_app.Base.{
  ℕ, ◌≡◌, refl, sym, inl, inr, Bool, true, ◌||◌, Option, List, [], ◌∷◌, arith, Bool-cases, any,
  any-append,
}
use treasury_os_app.Reconciliation.Records.{SourceKey}
use treasury_os_app.Reconciliation.Derivation.{
  ItemSpec, same_source, category_code, add_spec, add_all,
}

pub same_source-parts :
    (a b : SourceKey)
    → same_source a b ≡ true
    → (category_code a.category ≡ category_code b.category)
      × (a.bank_id ≡ b.bank_id)
      × (a.treasury_id ≡ b.treasury_id)
unfolding same_source
same_source-parts a b h = ground arith

pub same_source_refl : (a : SourceKey) → same_source a a ≡ true
unfolding same_source
same_source_refl a = ground arith

-- A test that reads only the parts of a key.
abbrev pub KeyTest : Type 0
KeyTest = ℕ → Option ℕ → Option ℕ → Bool

abbrev pub on_key : KeyTest → SourceKey → Bool
on_key p k = p (category_code k.category) k.bank_id k.treasury_id

abbrev pub on_spec : KeyTest → ItemSpec → Bool
on_spec p x = on_key p x.source_key

any_same_key :
    (p : KeyTest) (x : ItemSpec) (specs : List ItemSpec)
    → any (λ (y : ItemSpec). same_source y.source_key x.source_key) specs ≡ true
    → (on_spec p x || any (on_spec p) specs) ≡ any (on_spec p) specs
any_same_key p x [] h = cc
any_same_key p x (y ∷ ys) h = elim (Bool-cases (same_source y.source_key x.source_key)) [
  | inl e ↦ ground (arith, same_source-parts y.source_key x.source_key e)
  | inr e ↦ ground (arith, any_same_key p x ys)
]

any-add_spec :
    (p : KeyTest) (x : ItemSpec) (specs : List ItemSpec)
    → any (on_spec p) (add_spec x specs) ≡ (on_spec p x || any (on_spec p) specs)
unfolding add_spec
any-add_spec p x specs =
    elim (Bool-cases (any (λ (y : ItemSpec). same_source y.source_key x.source_key) specs)) [
      | inl old ↦ rw old (sym (any_same_key p x specs old))
      | inr new ↦ rw new (ground (arith, any-append (on_spec p) specs (x ∷ [])))
    ]

pub any-add_all :
    (p : KeyTest) (xs specs : List ItemSpec)
    → any (on_spec p) (add_all xs specs) ≡ (any (on_spec p) xs || any (on_spec p) specs)
any-add_all p [] specs = refl
any-add_all p (x ∷ xs) specs =
    ground (arith, any-add_all p xs (add_spec x specs), any-add_spec p x specs)
