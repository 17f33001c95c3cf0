-- ===== src/Discovery/First.antt =====
-- Which resource of a list `firstOfKind` takes.
use mathlib.Core.Path.{subst}
use mathlib.Core.List.{Memᴰ}
use mathlib.Core.List.Memᴰ.{head, tail}
use rancher_ai_mcp.Prelude.{
  String, ◌≡◌, refl, ap, sym, ◌∙◌, inl, inr, ◌++◌, All, true, false, Bool-cases, some, List, [],
  ◌∷◌, arith,
}
use rancher_ai_mcp.Discovery.{ApiResource, Names, is_subresource, serves, first_of_kind}

module _ (names : Names) (kind : String) where
  -- A resource, no subresource, of the kind up to case.
  abbrev pub HasKind : ApiResource → Type 0
  HasKind ar = (names.has_slash ar.name ≡ false) × (names.equal_fold ar.kind kind ≡ true)

  -- The first of the resources that has the kind.
  pub record IsFirst (ars : List ApiResource) (ar : ApiResource) : Type 0 where
    pub before : List ApiResource
    pub after : List ApiResource
    pub split : ars ≡ before ++ ar ∷ after
    pub others : All (λ (other : ApiResource). ¬ HasKind other) before
    pub has : HasKind ar

  serves-HasKind : (ar : ApiResource) → serves names kind ar ≡ true → HasKind ar
  unfolding serves is_subresource
  serves-HasKind ar h = ground (arith, h)

  HasKind-serves : (ar : ApiResource) → HasKind ar → serves names kind ar ≡ true
  unfolding serves is_subresource
  HasKind-serves ar h = rw (h.0, h.1) refl

  pub first_of_kind-IsFirst :
      (ars : List ApiResource) (ar : ApiResource)
      → first_of_kind names kind ars ≡ some ar
      → IsFirst ars ar
  unfolding first_of_kind
  first_of_kind-IsFirst [] ar h = cc
  first_of_kind-IsFirst (r ∷ ars) ar h = elim (Bool-cases (serves names kind r)) [
    | inl e ↦
        let same : r ≡ ar = cc (rw e at h) in
        record {
          before = [];
          after = ars;
          split = ap (λ (a : ApiResource). a ∷ ars) same;
          others = tt;
          has = rw (sym same) (serves-HasKind r e);
        }
    | inr e ↦
        let rest = first_of_kind-IsFirst ars ar (rw e at h) in
        record {
          before = r ∷ rest.before;
          after = rest.after;
          split = ap (λ (l : List ApiResource). r ∷ l) rest.split;
          others = (λ has. let served = HasKind-serves r has in cc (served, e), rest.others);
          has = rest.has;
        }
  ]

  first_of_kind-before :
      (before after : List ApiResource) (ar : ApiResource)
      → All (λ (other : ApiResource). ¬ HasKind other) before
      → HasKind ar
      → first_of_kind names kind (before ++ ar ∷ after) ≡ some ar
  unfolding first_of_kind
  first_of_kind-before [] after ar others has = rw (HasKind-serves ar has) refl
  first_of_kind-before (r ∷ before) after ar (none_here, others) has =
      elim (Bool-cases (serves names kind r)) [
        | inl e ↦ absurd (none_here (serves-HasKind r e))
        | inr e ↦ rw e (first_of_kind-before before after ar others has)
      ]

  pub IsFirst-first_of_kind :
      (ars : List ApiResource) (ar : ApiResource)
      → IsFirst ars ar
      → first_of_kind names kind ars ≡ some ar
  IsFirst-first_of_kind ars ar h =
      ap (first_of_kind names kind) h.split
      ∙ first_of_kind-before h.before h.after ar h.others h.has

  pub HasKind-IsFirst :
      (ars : List ApiResource) (ar : ApiResource)
      → Memᴰ ar ars
      → HasKind ar
      → (found : ApiResource) × IsFirst ars found
  HasKind-IsFirst [] ar m has = elim m [ ]
  HasKind-IsFirst (r ∷ ars) ar m has = elim (Bool-cases (serves names kind r)) [
    | inl e ↦ (
      r,
      record { before = []; after = ars; split = refl; others = tt; has = serves-HasKind r e },
    )
    | inr e ↦
        let unlike : ¬ HasKind r = λ h. let served = HasKind-serves r h in cc (served, e) in
        let rest : (found : ApiResource) × IsFirst ars found = elim m [
          | head same ↦ absurd (unlike (subst HasKind same has))
          | tail m' ↦ HasKind-IsFirst ars ar m' has
        ] in
        (
          rest.0,
          record {
            before = r ∷ rest.1.before;
            after = rest.1.after;
            split = ap (λ (l : List ApiResource). r ∷ l) rest.1.split;
            others = (unlike, rest.1.others);
            has = rest.1.has;
          },
        )
  ]
