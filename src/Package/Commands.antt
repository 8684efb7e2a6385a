-- ===== src/Package/Commands.antt =====
-- package_stream_base.h, `enum CMD`.
use treeipc.Base.{ℕ}

abbrev pub cmd_at : ℕ
cmd_at = 1

abbrev pub cmd_at_success : ℕ
cmd_at_success = 2

abbrev pub cmd_at_error : ℕ
cmd_at_error = 3

abbrev pub cmd_ls : ℕ
cmd_ls = 4

abbrev pub cmd_ls_success : ℕ
cmd_ls_success = 5

abbrev pub cmd_ls_error : ℕ
cmd_ls_error = 6

abbrev pub cmd_prop_get_value : ℕ
cmd_prop_get_value = 8

abbrev pub cmd_prop_get_value_error : ℕ
cmd_prop_get_value_error = 9

abbrev pub cmd_prop_get_value_success : ℕ
cmd_prop_get_value_success = 10

abbrev pub cmd_subscribe : ℕ
cmd_subscribe = 11

abbrev pub cmd_unsubscribe : ℕ
cmd_unsubscribe = 12

abbrev pub cmd_prop_value_updated : ℕ
cmd_prop_value_updated = 13

abbrev pub cmd_prop_set_value : ℕ
cmd_prop_set_value = 14

abbrev pub cmd_node_attach : ℕ
cmd_node_attach = 15

abbrev pub cmd_generate_nid : ℕ
cmd_generate_nid = 17

abbrev pub cmd_child_added : ℕ
cmd_child_added = 18

abbrev pub cmd_subscribe_add_remove : ℕ
cmd_subscribe_add_remove = 19
