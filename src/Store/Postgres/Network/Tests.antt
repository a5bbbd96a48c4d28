-- ===== src/Store/Postgres/Network/Tests.antt =====
-- store/postgres.go: the chart of three hours, of which the last two are refreshed.
use forensic_listener.Prelude.{ℕ, ◌+◌, ◌*◌, ◌≡◌, refl, List, [], ◌∷◌, map, length}
use forensic_listener.Store.Fixtures.{lib, payment, speed_up}
use forensic_listener.Store.Address.{normalize_address, trim_space, is_space}
use forensic_listener.Store.Postgres.{pending_row}
use forensic_listener.Store.Postgres.Transactions.{TxRow}
use forensic_listener.Store.Postgres.Network.{
  HourRow, one_hour, hour_row, hours_in, put_hour, put_hours, sum_of, refresh_network_hourly,
  find_hour, point_of, hours_from, series, network_metrics, address_velocity, velocity_point,
}
use forensic_listener.Store.Postgres.Network.Rollup.{refreshed_hour, metrics-refresh}

abbrev sixth_hour : ℕ
sixth_hour = 6 * one_hour + 1

abbrev traffic : List TxRow
traffic =
    pending_row lib (record payment { timestamp = sixth_hour })
    ∷ pending_row lib (record speed_up { timestamp = sixth_hour + 9 })
    ∷ []

abbrev stored : List HourRow
stored =
    record {
      bucket = 4;
      transaction_count = 3;
      unique_addresses = 2;
      avg_gas_price = 7;
      total_value = 30;
      refreshed_at = 1;
    }
    ∷ []

metrics-refresh_example :
    (network_metrics sixth_hour 3 (refresh_network_hourly (5 * one_hour) 9 traffic stored).0
      ≡ map
          (λ b. point_of b (refreshed_hour (5 * one_hour) 9 traffic stored b))
          (series sixth_hour 3))
    × (length
          (network_metrics sixth_hour 3 (refresh_network_hourly (5 * one_hour) 9 traffic stored).0)
        ≡ 3)
metrics-refresh_example = metrics-refresh (5 * one_hour) 9 sixth_hour 3 traffic stored

chart :
    map
      (λ p. p.transaction_count)
      (network_metrics sixth_hour 3 (refresh_network_hourly (5 * one_hour) 9 traffic stored).0)
    ≡ 3 ∷ 0 ∷ 2 ∷ []
unfolding network_metrics refresh_network_hourly hour_row hours_in put_hours put_hour find_hour
    hours_from pending_row
chart = refl

average_rounds_up :
    map
      (λ p. p.avg_gas_price)
      (network_metrics sixth_hour 1
        (refresh_network_hourly
          (5 * one_hour)
          9
          (pending_row lib (record payment { timestamp = sixth_hour; gas_price = 8 }) ∷ traffic)
          stored).0)
    ≡ 8 ∷ []
unfolding network_metrics refresh_network_hourly hour_row hours_in put_hours put_hour find_hour
    hours_from sum_of pending_row
average_rounds_up = refl

both_sent :
    map
      (λ p. p.sent_count)
      (address_velocity lib sixth_hour "0xaaaaaaaaaaaaaaaaaaaaaaaaaaaaaaaaaaaaaaaa" 2 traffic)
    ≡ 0 ∷ 2 ∷ []
unfolding address_velocity velocity_point hours_from pending_row normalize_address trim_space
    is_space
both_sent = refl
