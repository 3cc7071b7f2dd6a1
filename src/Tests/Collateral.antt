-- ===== src/Tests/Collateral.antt =====
-- The collateral of a small quote.
use caladon.Prelude.{◌≡◌, ◌≢◌, refl, ℕ, ◌+◌, ◌^◌, true, some, List, [], ◌∷◌, ◌++◌, arith}
use caladon.Sdk.Text.{Text, codes}
use caladon.Sdk.Collateral.{
  begin_tag, end_tag, find_oid_value, oid_to_der, oid_fmspc, root_ca_crl_of, extract_fmspc,
}
use caladon.Sdk.Collateral.Search.{IsValueOf, find_oid_value-IsValueOf}
use caladon.Sdk.Collateral.RootCrl.{root_ca_crl_of-hex_of}
use caladon.Sdk.Collateral.Fetch.{Pcs, PcsReply, QuoteCollateral}
use caladon.Shim.Server.{hex_of}

abbrev value : List ℕ
value = 6 ∷ 2 ∷ 42 ∷ 3 ∷ 4 ∷ 1 ∷ 9 ∷ []

find_oid_value-IsValueOf_example :
    IsValueOf (42 ∷ 3 ∷ []) 0 value (record { content_start = 6; content_end = some (2 ^ 32 + 7) })
unfolding find_oid_value
find_oid_value-IsValueOf_example =
    find_oid_value-IsValueOf (42 ∷ 3 ∷ []) 0 value
      (record { content_start = 6; content_end = some (2 ^ 32 + 7) }) refl

abbrev crl : List ℕ
crl = 48 ∷ 255 ∷ []

crl_filled : crl ≢ []
crl_filled h = ground (arith, h)

root_ca_crl_of-hex_of_example : root_ca_crl_of (λ t. []) (hex_of crl) ≡ crl
root_ca_crl_of-hex_of_example =
    root_ca_crl_of-hex_of (λ t. []) crl crl_filled (omega arith, (omega arith, tt))

-- The identifiers of the source, encoded.
oid_fmspc_der : oid_to_der oid_fmspc ≡ 42 ∷ 134 ∷ 72 ∷ 134 ∷ 248 ∷ 77 ∷ 1 ∷ 13 ∷ 1 ∷ 4 ∷ []
unfolding oid_to_der
oid_fmspc_der = refl

-- A certificate with the extension, and in it the platform's FMSPC.
abbrev certificate : List ℕ
certificate =
    6 ∷ 9 ∷ 42 ∷ 134 ∷ 72 ∷ 134 ∷ 248 ∷ 77 ∷ 1 ∷ 13 ∷ 1 ∷ 4 ∷ 20 ∷ 6 ∷ 10 ∷ 42 ∷ 134 ∷ 72 ∷ 134
    ∷ 248 ∷ 77 ∷ 1 ∷ 13 ∷ 1 ∷ 4 ∷ 4 ∷ 6 ∷ 0 ∷ 144 ∷ 110 ∷ 213 ∷ 0 ∷ 0 ∷ []

fmspc_found : extract_fmspc certificate ≡ some (codes "00906ED50000")
unfolding extract_fmspc
fmspc_found = refl

abbrev answer : PcsReply
answer = record { ok = true; body = 1 ∷ []; text = codes "ab"; header = λ n. some (codes "chain") }

abbrev pcs : Pcs
pcs = record {
  base = codes "/pcs";
  fetch = λ n url. some answer;
  b64_to_bytes = λ t. some certificate;
  decode_uri = λ t. some t;
  utf8 = λ t. t;
  parse_tcb = λ b. some (codes "tcb", codes "01");
  parse_qe = λ b. some (codes "qe", codes "02");
}

abbrev pem : Text
pem = begin_tag ++ codes "AA" ++ end_tag

abbrev quote : List ℕ
quote = codes "x" ++ pem

abbrev urls : List Text
urls =
    codes "/pcs/sgx/certification/v4/pckcrl?ca=processor&encoding=der"
    ∷ codes "/pcs/tdx/certification/v4/tcb?fmspc=00906ED50000"
    ∷ codes "/pcs/tdx/certification/v4/qe/identity?update=standard"
    ∷ codes "/pcs/root-ca-crl"
    ∷ []

abbrev collateral : QuoteCollateral
collateral = record {
  pck_crl_issuer_chain = codes "chain";
  root_ca_crl = codes "ab";
  pck_crl = codes "01";
  tcb_info_issuer_chain = codes "chain";
  tcb_info = codes "tcb";
  tcb_info_signature = codes "01";
  qe_identity_issuer_chain = codes "chain";
  qe_identity = codes "qe";
  qe_identity_signature = codes "02";
  pck_certificate_chain = pem ++ 10 ∷ [];
}
