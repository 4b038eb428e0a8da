-- ===== src/Conf/Values/Flags.antt =====
-- A flag is set once, and its default fills it only if it was not set.
use lingx.Base.{ℕ, ◌≡◌, ◌⊎◌, true, List, arith}
use lingx.Conf.Directives.{conf_ok, bytes_eq}
use lingx.Conf.Values.{
  unset, off, on, init_value, merge_value, c_str, is_duplicate, on_text, off_text, parse_flag_arg,
}

-- A flag directive that is accepted sets the flag to 1 for `on` and to 0 for `off`, and the flag
-- was unset; then another directive for it is a duplicate and changes nothing, the module's default
-- does not replace it, and in a merge it wins over the outer block and the default.
pub parse_flag_arg-ok :
    (arg again : List ℕ) (fp prev val : ℕ)
    → (parse_flag_arg arg fp).0 ≡ conf_ok
    → let v = (parse_flag_arg arg fp).1 in
      (fp ≡ unset)
      × (((v ≡ on) × (bytes_eq (c_str arg) on_text ≡ true))
          ⊎ ((v ≡ off) × (bytes_eq (c_str arg) off_text ≡ true)))
      × (parse_flag_arg again v ≡ (is_duplicate, v))
      × (init_value v val ≡ v)
      × (merge_value v prev val ≡ v)
unfolding parse_flag_arg init_value merge_value
parse_flag_arg-ok arg again fp prev val e = ground arith
