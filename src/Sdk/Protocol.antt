-- ===== src/Sdk/Protocol.antt =====
-- web-client/caladon/src/types.ts and constants.ts: what the SDK puts on the wire and takes off it,
-- and the Caladon configuration of client.ts. Of the evidence, the fields that the client reads.
use caladon.Sdk.Text.{Text, codes}
use caladon.Sdk.Envelope.{Envelope}
use caladon.Prelude.{ℕ, ◌*◌, Bool, Option, none, some, List}

pub record OnboardBody : Type 0 where
  pub account_id : Text
  pub ed25519_pub : Text
  pub kem_pub : Text

pub record AttestationEvidence : Type 0 where
  pub challenge : Text
  pub intel_quote : Option Text
  pub quote : Option Text
  -- JSON.stringify(ev.info ?? {})
  pub info_json : Text
  pub session_pub : Option Text

pub record SessionBody : Type 0 where
  pub client_eph_pub : Text
  pub sealed_wmk : Envelope

pub record ChatBody : Type 0 where
  pub envelope : Envelope
  pub model : Option Text

pub record PinnedSet : Type 0 where
  pub measurements : List Text
  pub compose_hashes : List Text
  pub workload_ids : List Text

-- `ok` of the source is `passed` here.
pub record Verdict : Type 0 where
  pub passed : Bool
  pub reason : Text
  pub measurement_matched : Bool

pub data DeltaEvent : Type 0 where
  token reasoning : DeltaEvent

pub record ChatDelta : Type 0 where
  pub event : DeltaEvent
  pub text : Text

pub record Identity : Type 0 where
  pub root : List ℕ
  pub account_id : Text
  pub ed25519_pub_b64 : Text

abbrev pub envelope_v : ℕ
envelope_v = 1

abbrev pub chat_purpose : Text
chat_purpose = codes "chat"

abbrev pub wmk_purpose : Text
wmk_purpose = codes "wmk-delivery"

abbrev pub default_salt : Text
default_salt = codes "swifty/v1"

abbrev pub argon2id_opslimit_reference : ℕ
argon2id_opslimit_reference = 3

abbrev pub argon2id_memlimit_reference : ℕ
argon2id_memlimit_reference = 64 * 1024 * 1024

abbrev pub default_shim_base : Text
default_shim_base = codes "/api/caladon"

pub data AttestationPolicy : Type 0 where
  strict observe skip : AttestationPolicy

-- CaladonClientConfig: an absent field takes its default.
pub record CaladonClientConfig : Type 0 where
  pub shim_base : Option Text
  pub argon2id_opslimit : Option ℕ
  pub argon2id_memlimit_bytes : Option ℕ
  pub salt : Option Text
  pub pinned : Option PinnedSet
  pub attestation_policy : Option AttestationPolicy

-- this.cfg
pub record ClientSettings : Type 0 where
  pub shim_base : Text
  pub argon2id_opslimit : ℕ
  pub argon2id_memlimit_bytes : ℕ
  pub salt : Text
  pub pinned : Option PinnedSet
  pub attestation_policy : AttestationPolicy

-- x ?? d
abbrev pub or_default : {A : Type 0} → A → Option A → A
or_default d none = d
or_default d (some a) = a

-- The constructor of CaladonClient.
unfoldable pub settings_of : CaladonClientConfig → ClientSettings
settings_of config = record {
  shim_base = or_default default_shim_base config.shim_base;
  argon2id_opslimit = or_default argon2id_opslimit_reference config.argon2id_opslimit;
  argon2id_memlimit_bytes = or_default argon2id_memlimit_reference config.argon2id_memlimit_bytes;
  salt = or_default default_salt config.salt;
  pinned = config.pinned;
  attestation_policy = or_default strict config.attestation_policy;
}
