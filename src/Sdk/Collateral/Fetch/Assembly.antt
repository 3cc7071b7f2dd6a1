-- ===== src/Sdk/Collateral/Fetch/Assembly.antt =====
-- collateral.ts: which answers a collateral is made of.
use caladon.Prelude.{◌≡◌, ℕ, ◌+◌, true, none, some, List, [], ◌∷◌, ◌++◌, length}
use caladon.Sdk.Text.{Text, codes}
use caladon.Sdk.Bytes.{to_hex}
use caladon.Sdk.Collateral.{extract_ca, root_ca_crl_of}
use caladon.Sdk.Collateral.Fetch.{Leaf, leaf_of_quote, PcsReply, Pcs, QuoteCollateral, issuer_chain}

-- The n-th request of all was for a path of the proxy, and had an answer with a status of success.
pub record IsGot (p : Pcs) (path : Text) (n : ℕ) (r : PcsReply) : Type 0 where
  pub answered : p.fetch n (p.base ++ path) ≡ some r
  pub success : r.ok ≡ true

abbrev pub crl_url : Text → Text
crl_url ca = codes "/sgx/certification/v4/pckcrl?ca=" ++ ca ++ codes "&encoding=der"

abbrev pub tcb_url : Text → Text
tcb_url fmspc = codes "/tdx/certification/v4/tcb?fmspc=" ++ fmspc

abbrev pub qe_url : Text
qe_url = codes "/tdx/certification/v4/qe/identity?update=standard"

-- Where a collateral comes from: the certificates of the quote, and the answers of four requests that
-- follow those of `s`, all with a status of success, and no others.
pub record IsAssembled (p : Pcs) (quote : List ℕ) (s t : List Text) (c : QuoteCollateral)
    : Type 0 where
  pub leaf : Leaf
  pub crl : PcsReply
  pub tcb : PcsReply
  pub qe : PcsReply
  pub root : PcsReply
  pub of_quote : leaf_of_quote p quote ≡ some leaf
  pub crl_got : IsGot p (crl_url (extract_ca leaf.certificate)) (length s) crl
  pub tcb_got : IsGot p (tcb_url leaf.fmspc) (length s + 1) tcb
  pub qe_got : IsGot p qe_url (length s + 2) qe
  pub root_got : IsGot p (codes "/root-ca-crl") (length s + 3) root
  pub asked :
      t
      ≡ s
        ++ ((p.base ++ crl_url (extract_ca leaf.certificate))
            ∷ (p.base ++ tcb_url leaf.fmspc)
            ∷ (p.base ++ qe_url)
            ∷ (p.base ++ codes "/root-ca-crl")
            ∷ [])
  pub pck_chain : c.pck_certificate_chain ≡ leaf.pem ++ 10 ∷ []
  pub crl_body : c.pck_crl ≡ to_hex crl.body
  pub crl_chain :
      issuer_chain p (crl.header (codes "SGX-PCK-CRL-Issuer-Chain")) none
      ≡ some c.pck_crl_issuer_chain
  pub tcb_body : p.parse_tcb tcb.body ≡ some (c.tcb_info, c.tcb_info_signature)
  pub tcb_chain :
      issuer_chain p
        (tcb.header (codes "SGX-TCB-Info-Issuer-Chain"))
        (tcb.header (codes "TCB-Info-Issuer-Chain"))
      ≡ some c.tcb_info_issuer_chain
  pub qe_body : p.parse_qe qe.body ≡ some (c.qe_identity, c.qe_identity_signature)
  pub qe_chain :
      issuer_chain p (qe.header (codes "SGX-Enclave-Identity-Issuer-Chain")) none
      ≡ some c.qe_identity_issuer_chain
  pub root_body : c.root_ca_crl ≡ to_hex (root_ca_crl_of p.utf8 root.text)
