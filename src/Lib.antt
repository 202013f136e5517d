-- ===== src/Lib.antt =====
-- Home Metrics: the core logic of the collectors, of the alert worker and of the API's rule checks.
--
-- The program stores sensor and energy measurements in PostgreSQL. Collectors receive bytes (an MQTT
-- stream of protobuf messages, Bluetooth advertisements, ECHONET Lite datagrams), decode them to values
-- and upsert rows by the minute; each collector reports its success or failure to `collector_status`.
-- The API validates alert rules, and a worker evaluates the stored rules against the newest values.
--
-- Base        what all modules share: Boolean tests and lists on the native numbers, integers, Go's
--             `float64` as an interface (Base/Float), times, texts and the bit operations
-- Sensor      internal/sensor: `Metrics`, `Columns`, `Device`, `Reading`, `NormalizeMAC`
-- Alert       internal/sensoralert/evaluator.go: `Evaluate` is `evaluate`, and its switch is `dispatch`
--   Rules     cmd/hm-api-server/alerts.go: `validateSensorAlertRule` is `validate_rule`
--   Worker    cmd/hm-sensor-alert-worker/main.go: `evaluateDBRule` is `transaction` with a rollback in
--             `evaluate_db_rule`, and `evaluateRules` is `evaluate_all`
-- Proto       cmd/hm-cisco-iot-orchestrator-collector/protobuf.go: `consumeVarint` and its kin, and the
--             message loops in Proto/Messages
-- Mqtt        cmd/hm-cisco-iot-orchestrator-collector/mqtt.go: packets, handshake, delivery loop
-- Decoder     cmd/hm-cisco-iot-orchestrator-collector/decoder.go and helpers.go: values from payloads
-- Echonet     cmd/hm-echonet-collector/main.go: frames, values, and the wait for an answer
-- Status      internal/collectorstatus/status.go: the two upserts on a table of rows
-- Migrate     cmd/hm-db-migrate/main.go: `splitSQLStatements` is `split_sql_statements`, one turn of its
--             loop is `turn`, and the loop of `main` is `migrate` in Migrate/Versions
-- Store       internal/sensorstore/store.go: `SyncDevice` is `sync_device`, `UpsertMinute` is
--             `upsert_minute` in Store/Minutes
-- Median      cmd/hm-cisco-iot-orchestrator-collector/aggregate.go: `nullableMedianFloat`
-- Windows     the same file: `add`, `flushCompleted`, `flushAll` and `pendingSummary`; in Windows/Store
--             `flush`, `upsertSensorMinuteReading` and `backfillSensorMinuteReadings`
-- Registry    what the two loaders of target devices share; they are `load_target_registry` in
--             Ble/Registry (cmd/hm-ble-collector/main.go) and in Connect/Registry
--             (cmd/hm-cisco-iot-orchestrator-collector/config.go)
-- Ble         cmd/hm-ble-collector/main.go: `decodeServiceData` and `add`; `filterMetric` in Ble/Filter;
--             `flush` and a round of the poll, `poll_round`, in Ble/Flush
-- Connect     cmd/hm-cisco-iot-orchestrator-collector/main.go: `flushPending`; `reconnectBackoff` and the
--             loop of `runWithReconnect` in Connect/Backoff; `decodeDataBatch` in Connect/Batch
-- Spaces      cmd/hm-cisco-spaces-collector: `normalizeMAC` and `writeReading`; `processEvent` in
--             Spaces/Process; `streamWithReconnect` in Spaces/Stream
-- Gatt        cmd/hm-cisco-iot-orchestrator-collector/gatt_control.go and flowercare.go: one session and
--             one entry of the history; the loop over the entries in Gatt/History; gatt_poller.go's
--             settings and schedule in Gatt/Schedule
-- Import      cmd/hm-energy-influx-import/main.go: `parseRecord` in Import/Rows, `parseAndImport` in
--             Import/Run
-- Ups         cmd/hm-apcupsd-collector/main.go: `writeNISCommand` and `readNISResponse`
-- Api         cmd/hm-api-server/server.go: `withCORS`, `withAuth` and `withJSON` around the handlers
-- Tests       the theorems at concrete inputs
--
-- Numbers are natural numbers with the wrap-around written out; a byte is a number below 256 and a
-- text is the list of its code points. A time is an instant; where the code writes its zone, the zone
-- is a text beside it. A table is a list or a function, and each database call that may fail is a
-- Boolean of the model or a function that may give nothing.
--
-- A loop over bytes has the length of its input as fuel, since every turn takes a byte; so has the scan
-- of a migration, whose turns move an index. `consumeVarint` has ten turns, as in the source, and the
-- loop that writes an MQTT length has nine, which a length below 2 ^ 63 does not exceed. The loop of
-- `runMQTT`, which ends only with its connection, has a number of turns, one for each packet and for
-- each passing of its read deadline; the loop over the stored history has one turn for each entry that
-- is asked for. What a connection delivers is a list, of bytes, of datagrams with their times, or of the
-- bytes between the deadlines, and a run of a reconnecting loop is the list of how its connections ended.
--
-- Not modelled: SQL text, HTTP, JSON, sockets and timers, DBus, logs, the environment and the start of
-- the commands; also the handlers of the API, the loop of the GATT poller over its devices, the Nature
-- Remo collector, the status fields of the UPS, and the check and maintenance tools. `float64`
-- arithmetic is a parameter, with laws of its order, and of the mean of two values, as hypotheses where
-- they are needed; so are the query for the newest observation, the control API, the parser of
-- durations, the printer of numbers, the random numbers, the CSV reader, and the parsers of times and
-- numbers.
pub mod Base
pub mod Sensor
pub mod Alert
pub mod Proto
pub mod Echonet
pub mod Mqtt
pub mod Status
pub mod Decoder
pub mod Median
pub mod Registry
pub mod Windows
pub mod Ble
pub mod Connect
pub mod Spaces
pub mod Gatt
pub mod Import
pub mod Ups
pub mod Api
pub mod Migrate
pub mod Store
pub mod Tests
