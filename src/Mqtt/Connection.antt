-- ===== src/Mqtt/Connection.antt =====
-- `NewClient`, `SubscribeSinkData` and `Close` of internal/mqttclient/mqttclient.go, with the MQTT
-- library as a parameter.
use device_wiresink_go.Prelude.{
  ℕ, ◌≡◌, refl, subst, Bool, true, false, Option, none, some, if◌then◌else◌, Text, codes,
}
use device_wiresink_go.Prelude.Outcome.{Error, external, Result, ok, err}

-- The options that `NewClient` sets; times are in seconds.
pub record Options : Type 0 where
  pub broker_url : Text
  pub client_id : Text
  pub connect_retry : Bool
  pub connect_retry_interval : ℕ
  pub keep_alive : ℕ
  pub ping_timeout : ℕ

-- What the code asks of the library. `connect` is `Connect` with `WaitTimeout` on its token, which
-- tells whether it came in time, and the token's error; `subscribe` is `Subscribe` with the error of
-- its token.
pub record Library : Type 1 where
  pub Client : Type 0
  pub new_client : Options → Client
  pub connect : Client → ℕ → Bool × Option Error
  pub subscribe : Client → Text → ℕ → Option Error
  pub is_connection_open : Client → Bool

abbrev pub options : Text → Text → Options
options broker_url client_id = record {
  broker_url = broker_url;
  client_id = client_id;
  connect_retry = true;
  connect_retry_interval = 5;
  keep_alive = 60;
  ping_timeout = 10;
}

-- How the attempt to connect ended.
abbrev pub connected : {A : Type 0} → A → Bool × Option Error → Result A
connected client (false, e) = err (external (codes "timeout"))
connected client (true, none) = ok client
connected client (true, some e) = err e

module _ (mqtt : Library) where
  unfoldable pub new_client : Text → Text → Result mqtt.Client
  new_client broker_url client_id =
      let client = mqtt.new_client (options broker_url client_id) in
      connected client (mqtt.connect client 10)

  unfoldable pub subscribe_sink_data : mqtt.Client → Text → ℕ → Option Error
  subscribe_sink_data client topic qos = mqtt.subscribe client topic qos

  -- `Close`: the client that it disconnects, if any; `MqttClient` may be nil.
  unfoldable pub close : Option mqtt.Client → Option mqtt.Client
  close none = none
  close (some client) = if mqtt.is_connection_open client then some client else none

  -- A client that `NewClient` returns has these options and was connected within ten seconds,
  -- without an error.
  pub new_client-connected :
      (broker_url client_id : Text) (client : mqtt.Client)
      → new_client broker_url client_id ≡ ok client
      → (mqtt.new_client (options broker_url client_id) ≡ client)
        × (mqtt.connect client 10 ≡ (true, none))
  unfolding new_client
  new_client-connected broker_url client_id client e =
      let c : mqtt.Client = mqtt.new_client (options broker_url client_id) in
      let (same, in_time) = by_end c (mqtt.connect c 10) e in
      (same, subst (λ (d : mqtt.Client). mqtt.connect d 10 ≡ (true, none)) same in_time)
    where
      injective : (c : mqtt.Client) → ok c ≡ ok client → c ≡ client
      injective c h = cc

      by_end :
          (c : mqtt.Client) (p : Bool × Option Error)
          → connected c p ≡ ok client
          → (c ≡ client) × (p ≡ (true, none))
      by_end c (false, problem) h = cc
      by_end c (true, none) h = (injective c h, refl)
      by_end c (true, some problem) h = cc
