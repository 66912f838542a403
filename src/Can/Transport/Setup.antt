-- ===== src/Can/Transport/Setup.antt =====
-- Setting up the CAN platform layer, sending, filters and status (app_can.c). The CAN driver behind
-- intf_can.h is a parameter.
use hpm53m1_g6618motor.Base.{
  ℕ, ◌+◌, ◌-◌, ◌%◌, Bool, true, false, not, ◌&&◌, ◌||◌, Option, none, some, List, ◌++◌, ltb, leb,
  ◌==◌, if◌then◌else◌, length, replicate,
}
use hpm53m1_g6618motor.Can.Transport.{
  Frame, BusStatus, Transport, Stats, zero_stats, empty_message, next,
}

-- `APP_CAN_FILTER_COUNT`
abbrev pub filter_count : ℕ
filter_count = 16

-- `intf_can_filter_elem_t`; the type is CLASSIC and the target FIFO 0.
pub record Filter : Type 0 where
  pub id : ℕ
  pub is_ext_id : Bool
  pub mask : ℕ

-- The driver's calls for the instance of the application; a result is 0 or an error code.
pub record CanDriver : Type 1 where
  pub Dev : Type 0
  pub init : Dev → ℕ × Dev
  pub config_irq_callback : Bool → Dev → ℕ × Dev
  pub deinit : Dev → Dev
  pub send_nonblocking : Frame → Dev → ℕ × Dev
  pub config_filter : ℕ → Filter → Dev → ℕ × Dev
  pub get_status : Dev → Option BusStatus

-- `app_can_is_std_id_valid` and `app_can_is_ext_id_valid`
unfoldable pub is_std_id_valid : ℕ → Bool
is_std_id_valid id = leb id 2047

unfoldable pub is_ext_id_valid : ℕ → Bool
is_ext_id_valid id = leb id 536870911

-- `app_can_reset_state`
unfoldable pub reset_state : Transport → Transport
reset_state s = record s {
  buf = λ i. empty_message;
  head = 0;
  tail = 0;
  count = 0;
  stats = zero_stats;
  has_callback = false;
  filter_index = 0;
}

-- `app_can_set_rx_callback` and `app_can_set_rx_isr_hook`, with a pointer that is or is not NULL.
unfoldable pub set_rx_callback : Bool → Transport → Transport
set_rx_callback present s = record s { has_callback = present }

unfoldable pub set_rx_isr_hook : Bool → Transport → Transport
set_rx_isr_hook present s = record s { has_hook = present }

-- `app_can_get_stats`
unfoldable pub get_stats : Transport → Stats
get_stats s = record (s.stats) { rx_pending_count = s.count }

module _ (driver : CanDriver) where
  open driver use {Dev}

  -- `app_can_refresh_status_snapshot`
  unfoldable pub refresh_status_snapshot : Transport → Dev → Transport
  refresh_status_snapshot s d = elim (driver.get_status d) [
    | none ↦ s
    | some status ↦ record s { stats = record (s.stats) { last_status = status } }
  ]

  -- `app_can_deinit`
  unfoldable pub deinit : Transport → Dev → Transport × Dev
  deinit s d = if not s.initialized then (reset_state s, d) else (
    record (reset_state s) { initialized = false },
    driver.deinit (driver.config_irq_callback false d).1,
  )

  -- The rest of `app_can_init`, once the state is reset.
  unfoldable pub init_driver : Transport → Dev → Bool × (Transport × Dev)
  init_driver s d =
      let (ret, d₁) = driver.init d in
      let (irq_ret, d₂) = driver.config_irq_callback true d₁ in
      if not (ret == 0)
      then (false, (s, d₁))
      else if not (irq_ret == 0)
      then (false, (s, driver.deinit d₂))
      else (true, (refresh_status_snapshot (record s { initialized = true }) d₂, d₂))

  -- `app_can_init`
  unfoldable pub init : Transport → Dev → Bool × (Transport × Dev)
  init s d =
      let (s₁, d₁) = if s.initialized then deinit s d else (s, d) in init_driver (reset_state s₁) d₁

  -- The frame that `app_can_send_internal` hands to the driver, if it does.
  unfoldable pub frame_to_send : Bool → ℕ → Bool → List ℕ → Option Frame
  frame_to_send initialized id is_ext_id bytes =
      let len = length bytes in
      if not initialized
      then none
      else if not (if is_ext_id then is_ext_id_valid id else is_std_id_valid id)
      then none
      else if ltb 8 len
      then none
      else some (record {
        id = id;
        is_ext_id = is_ext_id;
        dlc = len;
        bytes = bytes ++ replicate (64 - len) 0;
        timestamp = 0;
      })

  -- The count of a send and its result.
  unfoldable pub note_send : ℕ → Transport → Transport
  note_send ret s = record s {
    stats =
        if ret == 0
        then record (s.stats) {
          last_tx_ret = ret;
          tx_enqueue_ok_count = next s.stats.tx_enqueue_ok_count;
        }
        else record (s.stats) { last_tx_ret = ret; tx_fail_count = next s.stats.tx_fail_count };
  }

  -- `app_can_send_internal`; `none` is -1 without a call of the driver.
  unfoldable pub send_internal : ℕ → Bool → List ℕ → Transport → Dev → Option ℕ × (Transport × Dev)
  send_internal id is_ext_id bytes s d = elim (frame_to_send s.initialized id is_ext_id bytes) [
    | none ↦ (none, (s, d))
    | some frame ↦
        let (ret, d₁) = driver.send_nonblocking frame d in
        let s₁ = note_send ret s in
        (some ret, (if ret == 0 then s₁ else refresh_status_snapshot s₁ d₁, d₁))
  ]

  -- `app_can_send`, `app_can_send_std` (its identifier is a `uint16_t`) and `app_can_send_ext`
  unfoldable pub send : ℕ → List ℕ → Transport → Dev → Option ℕ × (Transport × Dev)
  send id bytes = send_internal id (ltb 2047 id) bytes

  unfoldable pub send_std : ℕ → List ℕ → Transport → Dev → Option ℕ × (Transport × Dev)
  send_std id bytes = send_internal (id % 65536) false bytes

  unfoldable pub send_ext : ℕ → List ℕ → Transport → Dev → Option ℕ × (Transport × Dev)
  send_ext id bytes = send_internal id true bytes

  -- `app_can_add_filter_internal`; `none` is -1 without a call of the driver.
  unfoldable pub add_filter_internal : ℕ → Bool → ℕ → Transport → Dev → Option ℕ × (Transport × Dev)
  add_filter_internal id is_ext_id mask s d =
      let valid =
        if is_ext_id
        then is_ext_id_valid id && is_ext_id_valid mask
        else is_std_id_valid id && is_std_id_valid mask in
      let (ret, d₁) =
        driver.config_filter s.filter_index (record { id = id; is_ext_id = is_ext_id; mask = mask })
          d in
      if not s.initialized || leb filter_count s.filter_index || not valid
      then (none, (s, d))
      else (some ret, (if ret == 0 then record s { filter_index = s.filter_index + 1 } else s, d₁))

  -- `app_can_add_std_filter` (its parameters are `uint16_t`), `app_can_add_ext_filter`, `app_can_add_filter`
  unfoldable pub add_std_filter : ℕ → ℕ → Transport → Dev → Option ℕ × (Transport × Dev)
  add_std_filter id mask = add_filter_internal (id % 65536) false (mask % 65536)

  unfoldable pub add_ext_filter : ℕ → ℕ → Transport → Dev → Option ℕ × (Transport × Dev)
  add_ext_filter id mask = add_filter_internal id true mask

  unfoldable pub add_filter : ℕ → ℕ → Transport → Dev → Option ℕ × (Transport × Dev)
  add_filter id mask s d =
      if is_std_id_valid id && is_std_id_valid mask
      then add_std_filter id mask s d
      else add_ext_filter id mask s d

  -- `app_can_get_status` with a buffer that is not NULL.
  unfoldable pub get_status : Transport → Dev → Option BusStatus × Transport
  get_status s d = if not s.initialized then (none, s) else elim (driver.get_status d) [
    | none ↦ (none, s)
    | some status ↦ (some status, record s { stats = record (s.stats) { last_status = status } })
  ]

  -- `app_can_clear_stats`
  unfoldable pub clear_stats : Transport → Dev → Transport
  clear_stats s d =
      let s₁ = record s { stats = zero_stats } in
      if s.initialized then refresh_status_snapshot s₁ d else s₁

  -- `app_can_is_bus_off`
  unfoldable pub is_bus_off : Transport → Dev → Bool × Transport
  is_bus_off s d =
      let (status, s') = get_status s d in
      elim status [ none ↦ (true, s') | some st ↦ (st.bus_off, s') ]
