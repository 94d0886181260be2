-- ===== src/Ble/Service.antt =====
-- src/ble/ble_fido_service.c: the GATT service with its five characteristics.
use open_fido.Common.{
  ℕ, Bool, true, false, not, List, [], ◌∷◌, length, Option, some, none, if◌then◌else◌, ◌==◌, ℤ, pos,
  negsuc,
}
use open_fido.Ble.Hal.{Hal}

abbrev pub service_ok : ℤ
service_ok = pos 0

abbrev pub service_error : ℤ
service_error = negsuc 0

abbrev pub service_invalid_param : ℤ
service_invalid_param = negsuc 1

abbrev pub service_not_initialized : ℤ
service_not_initialized = negsuc 2

abbrev pub service_not_paired : ℤ
service_not_paired = negsuc 3

abbrev pub control_point_max_length : ℕ
control_point_max_length = 512

-- `ble_fido_service_state_t`; `callbacks` says whether they are stored.
pub record Service : Type 0 where
  pub initialized : Bool
  pub callbacks : Bool
  pub service_handle : ℕ
  pub control_point_handle : ℕ
  pub status_handle : ℕ
  pub control_point_length_handle : ℕ
  pub service_revision_handle : ℕ
  pub service_revision_bitfield_handle : ℕ
  pub status_notify_enabled : Bool

module _ {W : Type 0} (hal : Hal W) where
  -- A characteristic, with its UUID, properties and length, and how the next step goes on.
  abbrev pub add_then :
      ℕ
      → ℕ
      → ℕ
      → (Service → ℕ → Service)
      → (ℕ → Service → W → ℤ × Service × W)
      → Service
      → W
      → ℤ × Service × W
  add_then uuid properties max_len keep next s w =
      let (h, w') = hal.add_characteristic s.service_handle uuid properties max_len w in
      elim h [ none ↦ (service_error, s, w') | some h' ↦ next h' (keep s h') w' ]

  abbrev pub done : ℕ → Service → W → ℤ × Service × W
  done h s w = (service_ok, record s { initialized = true }, hal.set_value h (0x80 ∷ []) w)

  abbrev pub add_bitfield : ℕ → Service → W → ℤ × Service × W
  add_bitfield h s w =
      add_then 0xF1D0_FFF5 0x02 1 (λ s' h'. record s' { service_revision_bitfield_handle = h' })
        done s (hal.set_value h (0x80 ∷ []) w)

  abbrev pub add_revision : ℕ → Service → W → ℤ × Service × W
  add_revision h s w =
      add_then 0xF1D0_FFF4 0x02 1 (λ s' h'. record s' { service_revision_handle = h' }) add_bitfield
        s (hal.set_value h (2 ∷ 0 ∷ []) w)

  abbrev pub add_length : ℕ → Service → W → ℤ × Service × W
  add_length h s w =
      add_then 0xF1D0_FFF3 0x02 2 (λ s' h'. record s' { control_point_length_handle = h' })
        add_revision s w

  abbrev pub add_status : ℕ → Service → W → ℤ × Service × W
  add_status h s w =
      add_then 0xF1D0_FFF2 0x10 control_point_max_length (λ s' h'. record s' { status_handle = h' })
        add_length s w

  abbrev pub add_control_point : Service → W → ℤ × Service × W
  add_control_point s w =
      add_then 0xF1D0_FFF1 0x08 control_point_max_length
        (λ s' h'. record s' { control_point_handle = h' }) add_status s w

  -- `given` says whether the callbacks are there.
  unfoldable pub service_init : Bool → Service → W → ℤ × Service × W
  service_init given s w =
      let (h, w') = hal.register_service 0xFFFD w in
      let s' = record s { callbacks = true } in
      if not given
      then (service_invalid_param, s, w)
      else if s.initialized
      then (service_ok, s, w)
      else elim h [
        | none ↦ (service_error, s', w')
        | some h' ↦ add_control_point (record s' { service_handle = h' }) w'
      ]

  unfoldable pub is_authorized : ℕ → W → Bool
  is_authorized conn w = elim (hal.is_encrypted conn w) [
    | none ↦ false
    | some encrypted ↦ encrypted
  ]

  -- Whether a write to the control point goes on to the callback, and with which bytes.
  unfoldable pub on_control_point_write : ℕ → Option (List ℕ) → Service → W → Option (List ℕ)
  on_control_point_write conn none s w = none
  on_control_point_write conn (some []) s w = none
  on_control_point_write conn (some (b ∷ bs)) s w =
      if not s.initialized
      then none
      else if not (is_authorized conn w)
      then none
      else if s.callbacks
      then some (b ∷ bs)
      else none

  unfoldable pub send_status : ℕ → Option (List ℕ) → Service → W → ℤ × W
  send_status conn none s w =
      if not s.initialized then (service_not_initialized, w) else (service_invalid_param, w)
  send_status conn (some bytes) s w =
      let (done, w') = hal.notify conn s.status_handle bytes w in
      if not s.initialized
      then (service_not_initialized, w)
      else if length bytes == 0
      then (service_invalid_param, w)
      else if not (is_authorized conn w)
      then (service_not_paired, w)
      else if not s.status_notify_enabled
      then (service_error, w)
      else if done
      then (service_ok, w')
      else (service_error, w')

unfoldable pub set_status_notify_enabled : Bool → Service → Service
set_status_notify_enabled enabled s =
    if not s.initialized then s else record s { status_notify_enabled = enabled }
