-- ===== src/Shim/Relay/Headers.antt =====
-- web-client/shim/src/proxy.ts: which headers pass the relay, and how.
use caladon.Prelude.{
  ◌≡◌, refl, subst, not, ◌&&◌, ◌∙◌, arith, String, ◌==◌, eq_iff, eq_refl, Bool, false,
  if◌then◌else◌, Bool-cases, inl, inr, Option, none, some, List, [], ◌∷◌,
}
use caladon.Table.{find, has, IsKeyed}
use caladon.Table.Laws.{find-upsert, merged}
use caladon.Shim.Relay.{
  Header, header_name, Network, copy_headers, set_header, strip_to_upstream, strip_from_upstream,
  build_upstream_headers, build_client_headers,
}

merged-new : (h : Header) (o : Option Header) → merged header_name (λ old new. new) h o ≡ h
unfolding merged
merged-new h none = refl
merged-new h (some x) = refl

find-set_header :
    (k : String) (h : Header) (out : List Header)
    → find header_name k (set_header h out) ≡ (if h.0 == k then some h else find header_name k out)
find-set_header k h out =
    rw
      (
        find-upsert header_name (λ old new. new) (λ x r. refl) k h out,
        merged-new h (find header_name k out),
      )
      refl

module _ (net : Network) (strip : String → Bool) where
  -- What a header of the list becomes, and what one that is not in it.
  abbrev copied : String → List Header → List Header → Option Header
  copied k hs out =
      if has header_name k hs && not (strip (net.lower k))
      then find header_name k hs
      else find header_name k out

  copied_this :
      (h : Header) (hs out : List Header)
      → has header_name h.0 hs ≡ false
      → copied h.0 hs (if strip (net.lower h.0) then out else set_header h out)
        ≡ copied h.0 (h ∷ hs) out
  unfolding has find
  copied_this h hs out fresh = elim (Bool-cases (strip (net.lower h.0))) [
    | inl gone ↦ rw (gone, fresh, eq_refl h.0) refl
    | inr kept ↦ rw (kept, fresh, eq_refl h.0) (find-set_header h.0 h out ∙ rw (eq_refl h.0) refl)
  ]

  copied_other :
      (k : String) (h : Header) (hs out : List Header)
      → (h.0 == k) ≡ false
      → copied k hs (if strip (net.lower h.0) then out else set_header h out)
        ≡ copied k (h ∷ hs) out
  unfolding has find
  copied_other k h hs out other = elim (Bool-cases (strip (net.lower h.0))) [
    | inl gone ↦ rw (gone, other) refl
    | inr kept ↦ rw (kept, other, find-set_header k h out, other) refl
  ]

  find-copy_headers :
      (k : String) (hs out : List Header)
      → IsKeyed header_name hs
      → find header_name k (copy_headers net strip hs out) ≡ copied k hs out
  unfolding copy_headers has
  find-copy_headers k [] out keyed = refl
  find-copy_headers k (h ∷ hs) out keyed =
      find-copy_headers k hs (if strip (net.lower h.0) then out else set_header h out) keyed.1
      ∙ elim (Bool-cases (h.0 == k)) [
        | inl this ↦
            subst
              (λ j.
                copied j hs (if strip (net.lower h.0) then out else set_header h out)
                ≡ copied j (h ∷ hs) out)
              (ground (arith, eq_iff h.0 k)) (copied_this h hs out keyed.0)
        | inr other ↦ copied_other k h hs out other
      ]

has-find :
    (k : String) (hs : List Header) → has header_name k hs ≡ false → find header_name k hs ≡ none
unfolding has find
has-find k [] h = refl
has-find k (x ∷ hs) h = ground (arith, has-find k hs)

copied_empty :
    (net : Network) (strip : String → Bool) (k : String) (hs : List Header)
    → copied net strip k hs [] ≡ (if strip (net.lower k) then none else find header_name k hs)
unfolding find
copied_empty net strip k hs = elim (Bool-cases (has header_name k hs)) [
  | inl found ↦ rw found (ground arith)
  | inr missing ↦ rw (missing, has-find k hs missing) (ground arith)
]

module _ (net : Network) (hs : List Header) (keyed : IsKeyed header_name hs) where
  pub find-build_upstream_headers :
      (k : String)
      → find header_name k (build_upstream_headers net hs)
        ≡ (if strip_to_upstream (net.lower k) then none else find header_name k hs)
  unfolding build_upstream_headers
  find-build_upstream_headers k =
      find-copy_headers net strip_to_upstream k hs [] keyed
      ∙ copied_empty net strip_to_upstream k hs

  pub find-build_client_headers :
      (k : String)
      → find header_name k (build_client_headers net hs)
        ≡ (if strip_from_upstream (net.lower k) then none else find header_name k hs)
  unfolding build_client_headers
  find-build_client_headers k =
      find-copy_headers net strip_from_upstream k hs [] keyed
      ∙ copied_empty net strip_from_upstream k hs
