-- ===== src/Sdk/Collateral/Fetch/Stages.antt =====
-- collateral.ts: the stages of fetchCollateralFromPcs, and what each has asked for.
use caladon.Prelude.{
  ◌≡◌, refl, sym, ap, ◌∙◌, arith, ℕ, Option, none, some, List, [], ◌∷◌, ◌++◌, take, append_assoc,
}
use caladon.Sdk.Text.{Text}
use caladon.Sdk.Collateral.{extract_ca}
use caladon.Sdk.Collateral.Fetch.{
  Leaf, Signed, leaf_of_quote, get_pck_crl, get_tcb, get_qe, fetch_root_ca_crl, assemble, PcsReply,
  Pcs, QuoteCollateral, Ask, go_on, ◌>>=◌, lift, give, pcs_get, fetch_collateral_from_pcs,
  pck_crl_path, tcb_path, qe_path, root_path,
}

-- What a bind that returns has done.
pub record IsBind {A B : Type 0} (m : Ask A) (f : A → Ask B) (s t : List Text) (b : B)
    : Type 0 where
  pub value : A
  pub between : List Text
  pub first : m s ≡ (some value, between)
  pub then_next : f value between ≡ (some b, t)

go_on_lem :
    {A B : Type 0} (o : Option A) (f : A → Ask B) (s t : List Text) (b : B)
    → go_on o f s ≡ (some b, t)
    → (a : A) × (o ≡ some a) × (f a s ≡ (some b, t))
go_on_lem none f s t b h = absurd (ground (arith, ap (λ x. x.0) h))
go_on_lem (some a) f s t b h = (a, refl, h)

pub bind_lem :
    {A B : Type 0} (m : Ask A) (f : A → Ask B) (s t : List Text) (b : B)
    → (m >>= f) s ≡ (some b, t)
    → IsBind m f s t b
unfolding ◌>>=◌
bind_lem m f s t b h =
    let (a, eq, next) = go_on_lem (m s).0 f (m s).1 t b h in
    record { value = a; between = (m s).1; first = ap (λ o. (o, (m s).1)) eq; then_next = next }

-- the first n of the four requests for the collateral of a leaf certificate, after those of s
abbrev pub asked_for : Pcs → Leaf → List Text → ℕ → List Text
asked_for p leaf s n =
    s
    ++ take n (
        (p.base ++ pck_crl_path p (extract_ca leaf.certificate))
        ∷ (p.base ++ tcb_path p leaf.fmspc)
        ∷ (p.base ++ qe_path p)
        ∷ (p.base ++ root_path p)
        ∷ [])

-- The stages of the code, each run after the ones before it.
pub record IsStaged (p : Pcs) (quote : List ℕ) (s t : List Text) (c : QuoteCollateral)
    : Type 0 where
  pub leaf : Leaf
  pub pck_crl : List ℕ × Text
  pub tcb : Signed
  pub qe : Signed
  pub root : List ℕ
  pub of_quote : leaf_of_quote p quote ≡ some leaf
  pub pck_crl_at :
      get_pck_crl p (extract_ca leaf.certificate) s ≡ (some pck_crl, asked_for p leaf s 1)
  pub tcb_at : get_tcb p leaf.fmspc (asked_for p leaf s 1) ≡ (some tcb, asked_for p leaf s 2)
  pub qe_at : get_qe p (asked_for p leaf s 2) ≡ (some qe, asked_for p leaf s 3)
  pub root_at : fetch_root_ca_crl p (asked_for p leaf s 3) ≡ (some root, asked_for p leaf s 4)
  pub asked : t ≡ asked_for p leaf s 4
  pub made : c ≡ assemble p leaf pck_crl tcb qe root

collateral_injective : (a b : QuoteCollateral) → some a ≡ some b → a ≡ b
collateral_injective a b h = cc

pub lift_value :
    {A : Type 0} (o : Option A) (s t : List Text) (a : A) → lift o s ≡ (some a, t) → o ≡ some a
lift_value o s t a h = ap (λ x. x.0) h

lift_asked : {A : Type 0} (o : Option A) (s t : List Text) (a : A) → lift o s ≡ (some a, t) → t ≡ s
lift_asked o s t a h = sym (ap (λ x. x.1) h)

module _ (p : Pcs) where
  made_lem :
      (leaf : Leaf) (crl : List ℕ × Text) (tcb qe : Signed) (root : List ℕ) (c : QuoteCollateral)
      (s t : List Text)
      → give (assemble p leaf crl tcb qe root) s ≡ (some c, t)
      → c ≡ assemble p leaf crl tcb qe root
  made_lem leaf crl tcb qe root c s t h = sym (collateral_injective _ c (ap (λ x. x.0) h))

  pcs_get_asked :
      (path : Text) (s t : List Text) (r : PcsReply)
      → pcs_get p path s ≡ (some r, t)
      → t ≡ s ++ (p.base ++ path) ∷ []
  unfolding pcs_get
  pcs_get_asked path s t r h = sym (ap (λ x. x.1) h)

  get_pck_crl_asked :
      (ca : Text) (s t : List Text) (r : List ℕ × Text)
      → get_pck_crl p ca s ≡ (some r, t)
      → t ≡ s ++ (p.base ++ pck_crl_path p ca) ∷ []
  unfolding get_pck_crl
  get_pck_crl_asked ca s t r h =
      let b0 = bind_lem _ _ s t r h in
      let b1 = bind_lem _ _ b0.between t r b0.then_next in
      lift_asked _ b1.between t r b1.then_next
      ∙ (lift_asked _ b0.between b1.between b1.value b1.first
          ∙ pcs_get_asked _ s b0.between b0.value b0.first)

  get_tcb_asked :
      (fmspc : Text) (s t : List Text) (r : Signed)
      → get_tcb p fmspc s ≡ (some r, t)
      → t ≡ s ++ (p.base ++ tcb_path p fmspc) ∷ []
  unfolding get_tcb
  get_tcb_asked fmspc s t r h =
      let b0 = bind_lem _ _ s t r h in
      let b1 = bind_lem _ _ b0.between t r b0.then_next in
      let b2 = bind_lem _ _ b1.between t r b1.then_next in
      lift_asked _ b2.between t r b2.then_next
      ∙ (lift_asked _ b1.between b2.between b2.value b2.first
          ∙ (lift_asked _ b0.between b1.between b1.value b1.first
              ∙ pcs_get_asked _ s b0.between b0.value b0.first))

  get_qe_asked :
      (s t : List Text) (r : Signed)
      → get_qe p s ≡ (some r, t)
      → t ≡ s ++ (p.base ++ qe_path p) ∷ []
  unfolding get_qe
  get_qe_asked s t r h =
      let b0 = bind_lem _ _ s t r h in
      let b1 = bind_lem _ _ b0.between t r b0.then_next in
      let b2 = bind_lem _ _ b1.between t r b1.then_next in
      lift_asked _ b2.between t r b2.then_next
      ∙ (lift_asked _ b1.between b2.between b2.value b2.first
          ∙ (lift_asked _ b0.between b1.between b1.value b1.first
              ∙ pcs_get_asked _ s b0.between b0.value b0.first))

  fetch_root_ca_crl_asked :
      (s t : List Text) (r : List ℕ)
      → fetch_root_ca_crl p s ≡ (some r, t)
      → t ≡ s ++ (p.base ++ root_path p) ∷ []
  unfolding fetch_root_ca_crl
  fetch_root_ca_crl_asked s t r h =
      let b0 = bind_lem _ _ s t r h in
      lift_asked _ b0.between t r b0.then_next ∙ pcs_get_asked _ s b0.between b0.value b0.first

  -- a step that returns, from a state that is known to one that is known
  step_lem :
      {A : Type 0} (m : Ask A) (a : A) (s s' t t' : List Text)
      → m s ≡ (some a, t)
      → s ≡ s'
      → t ≡ t'
      → m s' ≡ (some a, t')
  step_lem m a s s' t t' h es et = sym (ap m es) ∙ (h ∙ ap (λ u. (some a, u)) et)

  -- one more request
  append_lem : (s u v : List Text) (t : Text) → u ≡ s ++ v → u ++ t ∷ [] ≡ s ++ (v ++ t ∷ [])
  append_lem s u v t e = ap (λ w. w ++ t ∷ []) e ∙ append_assoc s v (t ∷ [])

  pub fetch_collateral_from_pcs-IsStaged :
      (quote : List ℕ) (s t : List Text) (c : QuoteCollateral)
      → fetch_collateral_from_pcs p quote s ≡ (some c, t)
      → IsStaged p quote s t c
  unfolding fetch_collateral_from_pcs
  fetch_collateral_from_pcs-IsStaged quote s t c h =
      let b0 = bind_lem _ _ s t c h in
      let b1 = bind_lem _ _ b0.between t c b0.then_next in
      let b2 = bind_lem _ _ b1.between t c b1.then_next in
      let b3 = bind_lem _ _ b2.between t c b2.then_next in
      let b4 = bind_lem _ _ b3.between t c b3.then_next in
      let leaf = b0.value in
      let e0 = lift_asked (leaf_of_quote p quote) s b0.between leaf b0.first in
      let e1 : b1.between ≡ asked_for p leaf s 1 =
        get_pck_crl_asked (extract_ca leaf.certificate) b0.between b1.between b1.value b1.first
        ∙ ap (λ u. u ++ (p.base ++ pck_crl_path p (extract_ca leaf.certificate)) ∷ []) e0 in
      let e2 : b2.between ≡ asked_for p leaf s 2 =
        get_tcb_asked leaf.fmspc b1.between b2.between b2.value b2.first
        ∙ append_lem s b1.between _ _ e1 in
      let e3 : b3.between ≡ asked_for p leaf s 3 =
        get_qe_asked b2.between b3.between b3.value b3.first ∙ append_lem s b2.between _ _ e2 in
      let e4 : b4.between ≡ asked_for p leaf s 4 =
        fetch_root_ca_crl_asked b3.between b4.between b4.value b4.first
        ∙ append_lem s b3.between _ _ e3 in
      record {
        leaf = leaf;
        pck_crl = b1.value;
        tcb = b2.value;
        qe = b3.value;
        root = b4.value;
        of_quote = lift_value (leaf_of_quote p quote) s b0.between leaf b0.first;
        pck_crl_at =
            step_lem (get_pck_crl p (extract_ca leaf.certificate)) b1.value _ _ _ _ b1.first e0 e1;
        tcb_at = step_lem (get_tcb p leaf.fmspc) b2.value _ _ _ _ b2.first e1 e2;
        qe_at = step_lem (get_qe p) b3.value _ _ _ _ b3.first e2 e3;
        root_at = step_lem (fetch_root_ca_crl p) b4.value _ _ _ _ b4.first e3 e4;
        asked =
            lift_asked (some (assemble p leaf b1.value b2.value b3.value b4.value)) b4.between t c
              b4.then_next
            ∙ e4;
        made = made_lem leaf b1.value b2.value b3.value b4.value c b4.between t b4.then_next;
      }
