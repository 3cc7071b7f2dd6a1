-- ===== src/Sdk/Collateral/Fetch.antt =====
-- web-client/caladon/src/collateral.ts: the four requests for the collateral of a quote, and its
-- assembly. `none` is a throw; the URLs that were asked for are kept in order.
pub mod Stages
pub mod Assembly
use caladon.Prelude.{ℕ, Bool, Option, none, some, List, [], ◌∷◌, ◌++◌, length, if◌then◌else◌}
use caladon.Sdk.Text.{Text, codes}
use caladon.Sdk.Bytes.{to_hex}
use caladon.Sdk.Collateral.{
  extract_pck_chain_from_quote, pem_chain_to_der, extract_fmspc, extract_ca, root_ca_crl_of,
}

pub record PcsReply : Type 0 where
  pub ok : Bool
  pub body : List ℕ
  pub text : Text
  pub header : Text → Option Text

-- The network's answer to the n-th request, atob, decodeURIComponent and UTF-8; and JSON: the inner
-- object of a body, printed again, and its signature.
pub record Pcs : Type 0 where
  pub base : Text
  pub fetch : ℕ → Text → Option PcsReply
  pub b64_to_bytes : Text → Option (List ℕ)
  pub decode_uri : Text → Option Text
  pub utf8 : Text → List ℕ
  pub parse_tcb : List ℕ → Option (Text × Text)
  pub parse_qe : List ℕ → Option (Text × Text)

pub record QuoteCollateral : Type 0 where
  pub pck_crl_issuer_chain : Text
  pub root_ca_crl : Text
  pub pck_crl : Text
  pub tcb_info_issuer_chain : Text
  pub tcb_info : Text
  pub tcb_info_signature : Text
  pub qe_identity_issuer_chain : Text
  pub qe_identity : Text
  pub qe_identity_signature : Text
  pub pck_certificate_chain : Text

pub record Leaf : Type 0 where
  pub pem : Text
  pub certificate : List ℕ
  pub fmspc : Text

-- A JSON answer: its issuer chain, its inner object and the object's signature.
pub record Signed : Type 0 where
  pub chain : Text
  pub inner : Text
  pub signature : Text

abbrev pub Ask : Type 0 → Type 0
Ask A = List Text → Option A × List Text

module _ {A B : Type 0} where
  abbrev pub go_on : Option A → (A → Ask B) → Ask B
  go_on none f asked = (none, asked)
  go_on (some a) f asked = f a asked

  infixl 5 ◌>>=◌
  unfoldable pub ◌>>=◌ : Ask A → (A → Ask B) → Ask B
  ◌>>=◌ m f asked = let (o, asked') = m asked in go_on o f asked'

abbrev pub lift : {A : Type 0} → Option A → Ask A
lift o asked = (o, asked)

abbrev pub give : {A : Type 0} → A → Ask A
give a asked = (some a, asked)

-- header ?? fallback ?? '', which must not be empty
abbrev pub chain_header : Option Text → Option Text → Option Text
chain_header (some []) fallback = none
chain_header (some (c ∷ t)) fallback = some (c ∷ t)
chain_header none (some (c ∷ t)) = some (c ∷ t)
chain_header none _ = none

module _ (p : Pcs) where
  -- this request throws, or its status is no success
  abbrev pub if_ok : Option PcsReply → Option PcsReply
  if_ok none = none
  if_ok (some r) = if r.ok then some r else none

  -- pcsGet(opts, path)
  unfoldable pub pcs_get : Text → Ask PcsReply
  pcs_get path asked =
      (if_ok (p.fetch (length asked) (p.base ++ path)), asked ++ (p.base ++ path) ∷ [])

  -- issuerChain(header, fallback)
  unfoldable pub issuer_chain : Option Text → Option Text → Option Text
  issuer_chain header fallback = elim (chain_header header fallback) [
    | none ↦ none
    | some v ↦ p.decode_uri v
  ]

  abbrev pub pck_crl_path : Text → Text
  pck_crl_path ca = codes "/sgx/certification/v4/pckcrl?ca=" ++ ca ++ codes "&encoding=der"

  abbrev pub tcb_path : Text → Text
  tcb_path fmspc = codes "/tdx/certification/v4/tcb?fmspc=" ++ fmspc

  abbrev pub qe_path : Text
  qe_path = codes "/tdx/certification/v4/qe/identity?update=standard"

  abbrev pub root_path : Text
  root_path = codes "/root-ca-crl"

  -- The certificates of the quote, and the FMSPC of the leaf.
  unfoldable pub leaf_of_chain : Text → Option Leaf
  unfolding pem_chain_to_der extract_fmspc
  leaf_of_chain pem = elim (pem_chain_to_der p.b64_to_bytes pem) [
    | none ↦ none
    | some (cert, _) ↦ elim (extract_fmspc cert) [
      | none ↦ none
      | some fmspc ↦ some (record { pem = pem; certificate = cert; fmspc = fmspc })
    ]
  ]

  unfoldable pub leaf_of_quote : List ℕ → Option Leaf
  unfolding extract_pck_chain_from_quote leaf_of_chain
  leaf_of_quote quote = elim (extract_pck_chain_from_quote quote) [
    | none ↦ none
    | some pem ↦ leaf_of_chain pem
  ]

  -- The revocation list of an authority, with its issuer chain.
  unfoldable pub get_pck_crl : Text → Ask (List ℕ × Text)
  unfolding pcs_get issuer_chain
  get_pck_crl ca = pcs_get (pck_crl_path ca) >>= λ r.
      lift (issuer_chain (r.header (codes "SGX-PCK-CRL-Issuer-Chain")) none) >>= λ chain.
      give (r.body, chain)

  unfoldable pub get_tcb : Text → Ask Signed
  unfolding pcs_get issuer_chain
  get_tcb fmspc = pcs_get (tcb_path fmspc) >>= λ r.
      lift (
        issuer_chain (r.header (codes "SGX-TCB-Info-Issuer-Chain"))
          (r.header (codes "TCB-Info-Issuer-Chain")))
      >>= λ chain. lift (p.parse_tcb r.body) >>= λ json.
          give (record { chain = chain; inner = json.0; signature = json.1 })

  unfoldable pub get_qe : Ask Signed
  unfolding pcs_get issuer_chain
  get_qe = pcs_get qe_path >>= λ r.
      lift (issuer_chain (r.header (codes "SGX-Enclave-Identity-Issuer-Chain")) none) >>= λ chain.
      lift (p.parse_qe r.body) >>= λ json.
      give (record { chain = chain; inner = json.0; signature = json.1 })

  -- fetchRootCaCrl(opts)
  unfoldable pub fetch_root_ca_crl : Ask (List ℕ)
  unfolding pcs_get root_ca_crl_of
  fetch_root_ca_crl = pcs_get root_path >>= λ r. give (root_ca_crl_of p.utf8 r.text)

  unfoldable pub assemble : Leaf → List ℕ × Text → Signed → Signed → List ℕ → QuoteCollateral
  unfolding to_hex
  assemble leaf pck_crl tcb qe root = record {
    pck_crl_issuer_chain = pck_crl.1;
    root_ca_crl = to_hex root;
    pck_crl = to_hex pck_crl.0;
    tcb_info_issuer_chain = tcb.chain;
    tcb_info = tcb.inner;
    tcb_info_signature = tcb.signature;
    qe_identity_issuer_chain = qe.chain;
    qe_identity = qe.inner;
    qe_identity_signature = qe.signature;
    pck_certificate_chain = leaf.pem ++ 10 ∷ [];
  }

  -- fetchCollateralFromPcs(quote, opts)
  unfoldable pub fetch_collateral_from_pcs : List ℕ → Ask QuoteCollateral
  unfolding leaf_of_quote extract_ca get_pck_crl get_tcb get_qe fetch_root_ca_crl assemble
  fetch_collateral_from_pcs quote = lift (leaf_of_quote quote) >>= λ leaf.
      get_pck_crl (extract_ca leaf.certificate) >>= λ pck_crl. get_tcb leaf.fmspc >>= λ tcb.
      get_qe >>= λ qe. fetch_root_ca_crl >>= λ root. give (assemble leaf pck_crl tcb qe root)
