-- ===== src/Store/Postgres/Flags/Tests.antt =====
-- store/postgres.go: the laws of the flags at one flag.
use forensic_listener.Prelude.{◌≡◌, []}
use forensic_listener.Models.{ForensicFlag, high}
use forensic_listener.Store.Fixtures.{lib}
use forensic_listener.Store.Postgres.Flags.{
  save_flag, IsUnique, save_flag_again, save_flag-IsUnique,
}

abbrev flag : ForensicFlag
flag = record {
  tx_hash = "h";
  address = " 0xaaaaaaaaaaaaaaaaaaaaaaaaaaaaaaaaaaaaaaaa";
  flag_type = "circular_flow";
  severity = high;
  detected_at = 0;
}

save_flag_again_applied : save_flag lib 9 flag (save_flag lib 8 flag []) ≡ save_flag lib 8 flag []
save_flag_again_applied = save_flag_again lib 8 9 flag []

save_flag-IsUnique_applied : IsUnique (save_flag lib 8 flag [])
save_flag-IsUnique_applied = save_flag-IsUnique lib 8 flag [] tt
