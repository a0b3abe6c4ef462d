-- ===== src/Lib.antt =====
-- Verification of Levity, a server for charge points that speak OCPP 1.6 JSON: the backend,
-- be/ocpp, and the websocket server in front of it, ws/src/levity_ws.
--
-- The websocket server puts each frame, connect and disconnect of a charge point on a queue. The
-- backend's consumer takes them one at a time: it updates the charge point's row, stores the frame as
-- a message, and for a call runs a chain of middleware around the making of the answer, then stores
-- and publishes the answer and the messages that the middleware added. A result is linked to the call
-- that it answers. Receivers of the models' post_save signal count and log what is stored.
--
-- The files and the code they model (paths from the repository's root):
--   Types/*: be/ocpp/types, and be/ocpp/utils/model/model_enum.py (Types/ModelEnum). A member's
--     `*_value` is its wire text, `*_members` the order of declaration, `parse_*` the call of the
--     class. Types/Error has the exceptions, and Result for what may raise.
--   Value, Dict: JSON values, with members of enumerations and datetimes, and Python's operations on
--     them that the code uses (`v[k]`, `v.get(k, d)`, `d.update(e)`, iteration, `v or d`).
--   Models/Rows: be/ocpp/models, a record for each model; `content` is the column `data`.
--     Models/World: the database's tables, the broker and the counters as one state, and Exec, a call
--     as a function from a state to a result or an exception, with the state in either case.
--     Models/Exchange: the requests and responses of be/ocpp/services/ocpp/base.py.
--   Platform: what the code uses and does not implement, as a parameter: Django's ORM and column
--     conversions, dateutil, uuid4, the clock, the `retry` decorator, the broker, the settings,
--     `import_string`, and middleware from outside the package. Its laws are the documented behaviour
--     of the ORM's create, get and filter, and of retry. Memory is a platform that meets them.
--   Objects/*: the models' methods and `objects`: Messages (be/ocpp/models/message.py), Transactions
--     (transaction.py), Meters (meter_value.py), ChargePoints (be/ocpp/services/charge_point_service.py
--     and websocket_event.py), Effects (be/ocpp/utils/date.py and uuid4). Wire: Message.to_ocpp.
--   Serialization: be/ocpp/utils/serialization.py. Publisher: be/ocpp/services/queue_publisher.py,
--     without the connection that a thread keeps: what comes of each run of the body of publish, with
--     its reconnect and its channel, is the platform's (Types/PublishRun). Publisher/Connection: with
--     it, for one thread, on the record Pika, which says what comes of each call of pika.
--   Receivers: be/ocpp/receivers.
--   Middleware/*: be/ocpp/services/ocpp: Base (base.py), Core (authorize, data_transfer, diagnostics
--     and firmware notifications, heartbeat), Profile (boot_notification, status_notification),
--     Metering (meter_values, start_transaction, stop_transaction), Orphans
--     (automation/orphaned_transaction.py), RemoteStart (anon/auto_remote_start.py); Chain:
--     get_middleware. A middleware is a handler that takes the next one.
--   Services/*: be/ocpp/services: Settings (be/ocpp/utils/settings.py), CallHandler and ResultHandler
--     (charge_point_message_handler.py), Events (websocket_event_handler.py), Consumer
--     (queue_consumer.py, as be/ocpp/management/commands/consume_rpc_queue.py runs it).
--   Management/*: be/ocpp/management/commands: Reporting (what the two share, and ChargePoint.__str__),
--     Corrections (correct_meter_values.py), Report (run_report.py). The record Reporting is their
--     platform: sorting, time zones and the arithmetic of floats.
--   Gateway/*: ws/src/levity_ws: State (global_context.py and the fields of ChargePointClient), Client
--     (cp.py), Server (the handlers of server.py and the body of the loop in rpc.py), Ordered (the
--     order of what is passed on when the handlers run one at a time), Sessions (the tasks of the
--     sockets, a step from each await to the next, in any interleaving), Commands
--     (consume_command_queue of cp.py inside the iterator of cancellable_iterator.py, as a task that
--     takes a step at a time among others), Process (main_async of main.py, with the loop of rpc.py).
--     Runtime is their platform: the exceptions of aio_pika and Starlette, and which keys of a
--     dict are one.
-- System is about the websocket server and the backend together. Proofs that go through all handlers
-- stand in Logic (a property that a call keeps, triples), OneOpen (the open transactions of a charge
-- point, what a StartTransaction comes to, from the queue to the answer, and a StopTransaction) and Keys (the keys of the
-- messages' table); the others stand below the module they are about.
--
-- An ORM object is its row at the time it was read: the code writes back only the columns it
-- assigned (update_fields), except for the answer and its side effects, which are saved whole. A recursion is on the list
-- that the source iterates over, and retry makes the source's five tries, so there is no fuel.
-- Requests carry the charge point's row beside the message, for `message.charge_point`.
--
-- Not modelled: the columns created_at and updated_at and the log lines, which no code reads; delays
-- between tries; the cache of get_middleware, whose classes keep no state; iso_format, which nothing
-- calls; a second thread that publishes; the admin pages, which are declarations for Django, the
-- migrations, which are generated, and the configuration.
-- Of the websocket server: that a wait for a reply lasts thirty seconds, since it may end at any time
-- here; a publish of the server that raises after the broker has taken the message; an exception in the closing of
-- the iterator of rpc.py; log lines, and the reading of the environment. When
-- Starlette runs the handlers of a socket is as Gateway/Sessions says.
pub mod Prelude
pub mod Value
pub mod Types
pub mod Models
pub mod Platform
pub mod Serialization
pub mod Dict
pub mod Wire
pub mod Publisher
pub mod Receivers
pub mod Objects
pub mod Middleware
pub mod Services
pub mod System
pub mod Memory
pub mod Tests
pub mod Logic
pub mod OneOpen
pub mod Keys
pub mod Management
pub mod Gateway
