-- ===== src/Regpidonfhc/Handlers.antt =====
-- lib/regpidonfhc.c: the functions by which a server changes and asks a regulator.
use regonf.Prelude.{ℕ, Bool, true, false, ◌&&◌, List, if◌then◌else◌}
use regonf.Prelude.Int.{ℤ, pos}
use regonf.CString.{codes, str_eq, str_n_eq}
use regonf.Float.{FloatOps}
use regonf.Timef.{timespec}
use regonf.Acp.{Link}
use regonf.Reg.{StateReg, off, init, disable, mode_pid, mode_onf, secure_touch}
use regonf.Regonfhc.Handlers.{is_busy, is_cooler, is_heater, mode_cooler, mode_heater, mode_both}
use regonf.Regpidonfhc.{RegPidOnfHcEm, RegPidOnfHc, control_em}

abbrev is_mode_onf : StateReg → Bool
is_mode_onf mode_onf = true
is_mode_onf _ = false

enabled_state : StateReg → Bool
enabled_state disable = false
enabled_state off = false
enabled_state _ = true

-- REG_MODE_PID_STR and REG_MODE_ONF_STR
abbrev pub mode_pid_str : List ℕ
mode_pid_str = codes "pid"

abbrev pub mode_onf_str : List ℕ
mode_onf_str = codes "onf"

-- The mode that the first three characters of a text name, or the mode before; and whether they name
-- one
abbrev pub named_mode : StateReg → List ℕ → StateReg
named_mode before value =
    if str_n_eq 3 value mode_pid_str
    then mode_pid
    else if str_n_eq 3 value mode_onf_str
    then mode_onf
    else before

abbrev pub names_mode : List ℕ → Bool
names_mode value = if str_n_eq 3 value mode_pid_str then true else str_n_eq 3 value mode_onf_str

module _ {F : Type 0} where
  unfoldable pub enable : RegPidOnfHc F → RegPidOnfHc F
  enable item = record item { state = init }

  unfoldable pub disable_reg : RegPidOnfHc F → RegPidOnfHc F
  disable_reg item = record item { state = disable }

  unfoldable pub get_enabled : RegPidOnfHc F → Bool
  unfolding enabled_state
  get_enabled item = enabled_state item.state

  -- Both functions test the mode of the heater.
  unfoldable pub set_cooler_delta : RegPidOnfHc F → F → RegPidOnfHc F
  set_cooler_delta item value = record item {
    cooler = record (item.cooler) { delta = value };
    state =
        if is_busy item.state && is_mode_onf item.heater.mode && is_cooler item.state_r
        then init
        else item.state;
  }

  unfoldable pub set_heater_delta : RegPidOnfHc F → F → RegPidOnfHc F
  set_heater_delta item value = record item {
    heater = record (item.heater) { delta = value };
    state =
        if is_busy item.state && is_mode_onf item.heater.mode && is_heater item.state_r
        then init
        else item.state;
  }

  unfoldable pub set_heater_kp : RegPidOnfHc F → F → RegPidOnfHc F
  set_heater_kp item value = record item {
    heater = record (item.heater) { pid = record (item.heater.pid) { kp = value } };
  }

  unfoldable pub set_heater_ki : RegPidOnfHc F → F → RegPidOnfHc F
  set_heater_ki item value = record item {
    heater = record (item.heater) { pid = record (item.heater.pid) { ki = value } };
  }

  unfoldable pub set_heater_kd : RegPidOnfHc F → F → RegPidOnfHc F
  set_heater_kd item value = record item {
    heater = record (item.heater) { pid = record (item.heater.pid) { kd = value } };
  }

  unfoldable pub set_cooler_kp : RegPidOnfHc F → F → RegPidOnfHc F
  set_cooler_kp item value = record item {
    cooler = record (item.cooler) { pid = record (item.cooler.pid) { kp = value } };
  }

  unfoldable pub set_cooler_ki : RegPidOnfHc F → F → RegPidOnfHc F
  set_cooler_ki item value = record item {
    cooler = record (item.cooler) { pid = record (item.cooler.pid) { ki = value } };
  }

  unfoldable pub set_cooler_kd : RegPidOnfHc F → F → RegPidOnfHc F
  set_cooler_kd item value = record item {
    cooler = record (item.cooler) { pid = record (item.cooler.pid) { kd = value } };
  }

  unfoldable pub set_goal : RegPidOnfHc F → F → RegPidOnfHc F
  set_goal item value = record item { goal = value }

  unfoldable pub set_heater_mode : RegPidOnfHc F → List ℕ → RegPidOnfHc F
  set_heater_mode item value = record item {
    heater = record (item.heater) { mode = named_mode item.heater.mode value };
    state =
        if names_mode value && is_busy item.state && is_heater item.state_r
        then init
        else item.state;
  }

  unfoldable pub set_cooler_mode : RegPidOnfHc F → List ℕ → RegPidOnfHc F
  set_cooler_mode item value = record item {
    cooler = record (item.cooler) { mode = named_mode item.cooler.mode value };
    state =
        if names_mode value && is_busy item.state && is_cooler item.state_r
        then init
        else item.state;
  }

  unfoldable pub set_change_gap : RegPidOnfHc F → ℤ → RegPidOnfHc F
  set_change_gap item value = record item { change_gap = timespec value (pos 0) }

  unfoldable pub secure_out_touch : RegPidOnfHc F → RegPidOnfHc F
  secure_out_touch item = record item { secure_out = secure_touch item.secure_out }

  -- the two stores to the flags `use`
  abbrev with_use : Bool → Bool → RegPidOnfHcEm F → RegPidOnfHcEm F → RegPidOnfHc F → RegPidOnfHc F
  with_use use_heater use_cooler h c item = record item {
    heater = record h { use_em = use_heater };
    cooler = record c { use_em = use_cooler };
    state = if is_busy item.state then init else item.state;
  }

module _ {F W : Type 0} ⦃float : FloatOps F⦄ ⦃link : Link F W⦄ where
  unfoldable pub set_em_mode : RegPidOnfHc F → List ℕ → W → RegPidOnfHc F × W
  set_em_mode item value w =
      let (h, w1) = control_em item.heater float.zero_f w in
      let (c, w2) = control_em item.cooler float.zero_f w in
      let (c', w3) = control_em item.cooler float.zero_f w1 in
      if str_eq mode_cooler value
      then (with_use false true h item.cooler item, w1)
      else if str_eq mode_heater value
      then (with_use true false item.heater c item, w2)
      else if str_eq mode_both value
      then (with_use true true item.heater item.cooler item, w)
      else (with_use false false h c' item, w3)

  unfoldable pub set_heater_power : RegPidOnfHc F → F → W → RegPidOnfHc F × W
  set_heater_power item value w =
      let (h, w1) = control_em item.heater value w in
      (record item { heater = h; output = h.output }, w1)

  unfoldable pub set_cooler_power : RegPidOnfHc F → F → W → RegPidOnfHc F × W
  set_cooler_power item value w =
      let (c, w1) = control_em item.cooler value w in
      (record item { cooler = c; output = c.output }, w1)

  unfoldable pub turn_off : RegPidOnfHc F → W → RegPidOnfHc F × W
  turn_off item w =
      let (c, w1) = control_em item.cooler float.zero_f w in
      let (h, w2) = control_em item.heater float.zero_f w1 in
      (record item { state = off; cooler = c; heater = h }, w2)
