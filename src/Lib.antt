-- ===== src/Lib.antt =====
-- The web client of SBM, a panel that manages a sing-box server. The client is a Vue application
-- under web/src: views that load JSON from the panel's HTTP interface, poll it, and let the user
-- change it. Each view keeps its state in refs, its operations are functions, most of them
-- asynchronous, and several requests of a view can be in flight at once.
--
-- An asynchronous function is cut at each `await`: the part up to the request is one function of
-- the state, and the rest is a continuation, which the state of the system keeps until its request
-- is settled (Async). A run is any list of events: calls of handlers by the user, the browser and
-- intervals, and answers to any of the waiting requests in any order. JavaScript runs each part
-- without interruption, so these are the interleavings that can happen. The answers are inputs of
-- the model, whatever the server does.
--
-- PollStatus is web/src/poll-status.ts. PanelUpdate is web/src/components/PanelUpdate.vue, the
-- dialog that installs a release and follows the server's job. DatePicker is
-- web/src/components/DatePickerControl.vue, over the calendar of JavaScript's Date in Calendar.
-- Selection holds the patterns of the traffic views for a selected period. TrafficHistory is
-- web/src/components/TrafficHistory.vue; it is an instance of Latest, which describes any view
-- that numbers its requests and shows the answer to the latest one only. TrafficApps is
-- web/src/components/TrafficApps.vue, in the same way, with the clearing of the records and the
-- exported report. I18n is web/src/i18n.ts over any catalog of messages; Catalog is the panel's
-- own, the tables of that file and of web/src/egress-i18n.ts, history-i18n.ts and network-i18n.ts,
-- with the comparison of web/scripts/check-i18n.mjs for all of them, where the script leaves the
-- tables of i18n.ts out. Api is web/src/api.ts, up to and behind its `fetch`. Session is
-- web/src/App.vue, with what web/src/views/LoginView.vue does to the session, whose form is
-- Session.Login: every view's requests go through it, and any of them can end the session. Qr is
-- the layout of the title in web/src/qr.ts, and the name of the file that a card is saved in.
-- Select is web/src/components/SelectControl.vue. Dashboard is web/src/views/DashboardView.vue:
-- its texts, made of a subscription's url, a duration and a version, and in View its state and
-- handlers, where a load waits for its answer and then for the card of its QR code. Drawing a card
-- is an answer like that of a request. Server is web/src/views/ServerView.vue, Settings
-- web/src/views/SettingsView.vue, Protocols web/src/views/ProtocolsView.vue and Calibrate
-- web/src/components/CalibrateUsageModal.vue, all in the same way. Latest.Revision is the
-- interface of the counters that outdate requests, Async.Balance that of the flags which say what
-- is under way; both are filled by Egress and Dashboard. Types has the records of web/src/types.ts
-- that several views share. Egress is web/src/views/EgressView.vue: the polled list of gateways,
-- the form with its keys, and the changes that go through `run` one at a time. A module Page in
-- most components has the texts of its template, under the conditions of v-if and v-for (Guide
-- those of web/src/components/EgressGuide.vue, Session.Shell those around the views), and the
-- module Page at the top composes them from web/src/App.vue down; Catalog.Covered says when a text
-- is one that both languages have, with all its placeholders given. Egress.Offered and
-- DatePicker.Clicks have the conditions under which a template offers its buttons. Message stands
-- for the texts of I18n in the other modules, where a translated text is kept as a key with its
-- parameters, and for errorMessage of web/src/api.ts. Base holds lists, texts, integers and
-- decimal numbers.
--
-- A JavaScript string that the code takes apart is a list of its UTF-16 code units (Text), any
-- other is a native string. Numbers are natural numbers, or integers where the code goes below 0;
-- the values in question (years, months, counts of requests, milliseconds) stay far below 2^53.
-- The time zones, Intl, the canvas and the browser's preferences are parameters (Zones, Browser,
-- Navigator, and those of Qr). The loops of stepMonth run on fuel, the distance of the month from
-- its range; that of fitTitle on the number of sizes, seven below 36, where the source stops at 22
-- as well. A picker's value is a text of digits and dashes: Number also reads signs, fractions,
-- spaces, exponents and other bases, which the model of the picker does not. The views bind no
-- such values, and what pickers commit has digits and dashes.
--
-- Not modelled: the Go server, the styles and what the markup does besides, the texts of the small
-- controls (ConfirmAction, Modal, PasswordInput), the texts whose key the server's answer
-- completes (the phase of an update, the reason of a check and the title of one that is no
-- listener), the floating point numbers that are formatted for display, the clipboard, the toasts'
-- timing and the entry point.
pub mod Base
pub mod Types
pub mod Async
pub mod Catalog
pub mod I18n
pub mod Api
pub mod Session
pub mod Message
pub mod PollStatus
pub mod PanelUpdate
pub mod Calendar
pub mod DatePicker
pub mod Selection
pub mod Latest
pub mod TrafficHistory
pub mod TrafficApps
pub mod Qr
pub mod Select
pub mod Dashboard
pub mod Egress
pub mod Server
pub mod Settings
pub mod Protocols
pub mod Calibrate
pub mod Page
