-- ===== src/Options/Core.antt =====
-- `Process_options_` and the core module's configuration of src/lingx/lingx.cc, with `set_prefix` and
-- `set_conf_file` of src/lingx/core/cycle.cc. The built-in path of the pid file is an argument.
use lingx.Base.{
  ℕ, ◌≡◌, inl, inr, true, false, List, [], ◌∷◌, ◌++◌, arith, if◌then◌else◌, Bool-cases,
}
use lingx.Conf.Values.{unset, on, init_value}
use lingx.Options.{Options}
use lingx.Path.{separator, back, empty, tail_separator, is_absolute, get_full_name, parent_path}
use lingx.Path.Names.{get_full_name-is_absolute, parent_path-is_dir, parent_path-is_prefix}

pub record CycleNames : Type 0 where
  pub cycle_prefix : List ℕ
  pub file : List ℕ
  pub conf_prefix : List ℕ
  pub param : List ℕ
  pub log_level : ℕ

abbrev pub set_prefix : List ℕ → CycleNames → CycleNames
set_prefix prefix cycle = record cycle { cycle_prefix = tail_separator prefix }

abbrev pub set_conf_file : List ℕ → CycleNames → CycleNames
set_conf_file name cycle = record cycle {
  file = name;
  conf_prefix = tail_separator (parent_path name);
}

-- The level `Log::INFO` is 7.
unfoldable pub process_options : Options → CycleNames → CycleNames
process_options o cycle =
    let c1 = set_prefix o.prefix cycle in
    let c2 = set_conf_file (get_full_name o.prefix o.conf_file) c1 in
    let c3 : CycleNames = record c2 { param = o.conf_param } in
    if o.test_config then record c3 { log_level = 7 } else c3

pub record CoreConf : Type 0 where
  pub daemon : ℕ
  pub master : ℕ
  pub pid_path : List ℕ

unfoldable pub core_create_conf : CoreConf
core_create_conf = record { daemon = unset; master = unset; pid_path = [] }

unfoldable pub core_init_conf : List ℕ → CycleNames → CoreConf → CoreConf
core_init_conf lnx_pid_path cycle ccf =
    let path = if empty ccf.pid_path then lnx_pid_path else ccf.pid_path in
    record {
      daemon = init_value ccf.daemon on;
      master = init_value ccf.master on;
      pid_path = get_full_name cycle.cycle_prefix path;
    }

tail_separator-is_absolute :
    (s : List ℕ) → is_absolute s ≡ true → is_absolute (tail_separator s) ≡ true
unfolding is_absolute tail_separator empty
tail_separator-is_absolute [] h = cc
tail_separator-is_absolute (c ∷ s) h = ground arith

-- If the prefix of the options is absolute, then after they are processed the cycle's prefix and
-- the configuration file are absolute, whatever file was named; the directory of that file is not
-- empty, ends in a separator and is what the name of the file begins with; and whatever the core module's configuration, its pid file is absolute.
pub process_options-is_absolute :
    (o : Options) (cycle : CycleNames) (lnx_pid_path : List ℕ) (ccf : CoreConf)
    → is_absolute o.prefix ≡ true
    → (is_absolute (process_options o cycle).cycle_prefix ≡ true)
      × (is_absolute (process_options o cycle).file ≡ true)
      × (empty (process_options o cycle).conf_prefix ≡ false)
      × (back (process_options o cycle).conf_prefix ≡ separator)
      × ((rest : List ℕ) × ((process_options o cycle).file
            ≡ (process_options o cycle).conf_prefix ++ rest))
      × (is_absolute (core_init_conf lnx_pid_path (process_options o cycle) ccf).pid_path ≡ true)
unfolding process_options core_init_conf
process_options-is_absolute o cycle lnx_pid_path ccf h =
    let pre = tail_separator-is_absolute o.prefix h in
    let name = get_full_name-is_absolute o.prefix o.conf_file h in
    let dir = parent_path-is_dir (get_full_name o.prefix o.conf_file) name in
    let front = parent_path-is_prefix (get_full_name o.prefix o.conf_file) name in
    let path = if empty ccf.pid_path then lnx_pid_path else ccf.pid_path in
    let pid = get_full_name-is_absolute (tail_separator o.prefix) path pre in
    elim (Bool-cases o.test_config) [
      | inl e ↦ rw e (pre, name, dir.0, dir.1, front, pid)
      | inr e ↦ rw e (pre, name, dir.0, dir.1, front, pid)
    ]
