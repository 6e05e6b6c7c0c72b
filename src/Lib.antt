-- ===== src/Lib.antt =====
-- A model of esp32-idf-ascom-alpaca: an ASCOM Alpaca server for the ESP32, which offers drivers of
-- astronomical devices (domes, focusers, switches and others) over HTTP.
--
-- The program. `Api` (src/alpaca_server/api.cpp) groups the devices by their type, gives each an
-- identifier, and registers a route for each method of each device with the HTTP server of the
-- platform. The HTTP server calls a handler with a request; the handler parses the URI, the query and
-- the form (`parse_request`), fetches the device from its list, casts it down to its class, reads its
-- parameters, calls one virtual method of the driver, and answers with a JSON document. Beside it, a
-- task receives datagrams and queues them (src/alpaca_server/udp_server.c), and another takes them out
-- and answers those that ask for the server (src/alpaca_server/discovery.c). The example program
-- (examples/) starts all of this with one device, a roof.
--
-- The files.
--   Base                 Boolean tests, lists, integers over the native numbers.
--   Base/Text            C strings: strcmp, strstr, strtol, atoi, itoa, %d; Decimal: reading back what
--                        was printed.
--   Device, Device/Names src/alpaca_server/device.h and device.cpp. A driver is a record of functions
--                        over a state `W` of all drivers; a device is such a record and one of its class.
--                        Device/Call: how methods are called; Device/Telescope: the class `Telescope`.
--   Double               The operators on `double` that the code applies, on bit patterns.
--   Platform             cJSON, the HTTP server's send, MD5 and strtof/strtod, as parameters.
--   Json                 What cJSON documents of printing a document into a buffer.
--   Server               src/alpaca_server/api.h, and of api.cpp the constructor, the setters and the
--                        error messages. The state `Server` is the API object, the message handler, the
--                        drivers' state, and the number of cJSON documents not deleted yet.
--   Request              `parse_string`, `parse_request`; Request/Answers: `send_json_response` and
--                        `send_error_response`.
--   Handler              What the handlers share; below it a file for each part of the API, each handler
--                        under its own name. Handler/Written: what the handlers rely on a driver to
--                        write. Handler/Telescope: what the 77 handlers of telescopes share;
--                        its children Capabilities, Readings, Settings and Motion hold them.
--   Route, Routes        `REGISTER_DEVICE_ROUTE`, the tables, and `register_routes`.
--   UniqueId             `initialize` and `generate_unique_id`.
--   Discovery            `discovery_task`, as a function of what it receives.
--   UdpServer            `udp_server_task` and `discovery_task` as two relations of steps on one state,
--                        with the queue between them, and `alpaca_server_discovery_start`.
--   RollOffRoof          examples/roll_off_roof.cpp, the driver of the example.
--   App                  examples/main.cpp, `app_main` up to its endless loop.
--   The children of Request, Handler, Handler/Telescope, Routes, Server, UniqueId, Discovery,
--                        UdpServer, RollOffRoof and App that are not named here
--                        hold the theorems on their parent and are named for what they prove.
--   Examples             Tests, and each theorem at a concrete input.
--
-- How the code is read. A handler is a function from the platform's functions, the request and the
-- state to an outcome: an error code, a response and a state, or a fault where the C++ code has
-- undefined behaviour (a buffer overflow, a missing element of a vector, a wrong cast, a number that
-- an enumeration or an integer does not hold, a read of what was never written). An out-parameter that
-- the code does not initialise is none if the driver leaves it unwritten; two things are taken to be
-- written always: the buffer of `get_name`, whose error two callers ignore, and the text of a message
-- handler that reports success. A socket of the UDP server is its number, as in the code, so that a
-- message can name one that is closed; whether `sendto` succeeds is a choice of the step. A parameter
-- that a handler refuses is a none of its reading function. The handlers of telescopes differ from the
-- others, so they have a pattern of their own: what they read is refused, undefined or given, and most
-- answer an error of the driver with 400. The program registers none of them. The mutex makes the increment of the
-- transaction counter one step, and so it is modelled. Machine integers: the counter is taken modulo
-- 2^32, the device number modulo 256, an error code handed to a message handler modulo 2^16, and
-- `strtol` stops at the ends of a 32-bit long.
--
-- Fuel. Only the loop of `parse_string` runs on fuel, one more than the query has bytes; each round
-- takes at least one byte off the query, so the fuel is never used up. Printing a decimal runs on accessibility;
-- all other loops are structural.
--
-- The two tasks of the discovery run side by side: each step of either is a step of the whole, and
-- what the network and the operating system decide is the choice of the step. Nothing is bounded there
-- but the queue, which holds ten messages.
--
-- Not modelled: logging, time stamps and delays; the macros of src/alpaca_server/http_status.h,
-- which no other file uses; how the HTTP server matches a URI with its handlers; the methods of drivers
-- other than the example's.
pub mod Base
pub mod Device
pub mod Double
pub mod Platform
pub mod Json
pub mod Server
pub mod Request
pub mod Handler
pub mod Route
pub mod Routes
pub mod UniqueId
pub mod Discovery
pub mod UdpServer
pub mod RollOffRoof
pub mod App
pub mod Examples
