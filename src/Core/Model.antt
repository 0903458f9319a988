-- ===== src/Core/Model.antt =====
-- crates/meshelf-core/src/model.rs and the constants of offer.rs. An identifier is the 128-bit
-- value of its UUID: equality of identifiers and the order of their fixed-width hexadecimal texts,
-- which the store uses as keys, are those of the values.
use meshelf.Base.{ℕ, ◌+◌, ◌*◌, ◌^◌, ◌-◌, Option, none, some, leb, if◌then◌else◌}

abbrev pub DeviceId : Type 0
DeviceId = ℕ

abbrev pub OfferId : Type 0
OfferId = ℕ

abbrev pub ActivationId : Type 0
ActivationId = ℕ

abbrev pub protocol_version : ℕ
protocol_version = 2

abbrev pub max_text_bytes : ℕ
max_text_bytes = 1024 * 1024

abbrev pub max_offer_preview_bytes : ℕ
max_offer_preview_bytes = 256

abbrev pub max_offer_file_bytes : ℕ
max_offer_file_bytes = 8 * 1024 * 1024 * 1024

abbrev pub max_offer_transfer_bytes : ℕ
max_offer_transfer_bytes = 16 * 1024 * 1024 * 1024

abbrev pub max_offer_manifest_entries : ℕ
max_offer_manifest_entries = 4096

abbrev pub max_offer_portable_component_bytes : ℕ
max_offer_portable_component_bytes = 255

abbrev pub max_live_entries : ℕ
max_live_entries = 10

abbrev pub max_offer_attempt_detail_bytes : ℕ
max_offer_attempt_detail_bytes = 512

-- the greatest values of the machine's unsigned integers; `usize` has 64 bits
abbrev pub u32_max : ℕ
u32_max = 2 ^ 32 - 1

abbrev pub u64_max : ℕ
u64_max = 2 ^ 64 - 1

-- `u32::checked_add` and `u64::checked_add`
abbrev pub checked_add_u32 : ℕ → ℕ → Option ℕ
checked_add_u32 a b = if leb (a + b) u32_max then some (a + b) else none

abbrev pub checked_add_u64 : ℕ → ℕ → Option ℕ
checked_add_u64 a b = if leb (a + b) u64_max then some (a + b) else none

pub data ContentKind : Type 0 where
  text path file folder : ContentKind
