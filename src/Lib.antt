-- ===== src/Lib.antt =====
-- The client of the GIKI wallet (frontend/src): the parts that decide something. React renders the
-- pages, the pages call actions of stores, an action awaits replies of the server and changes the
-- store. The server itself (backend) is another program, known here by its replies alone.
--
-- Files:
--   Common       shared names, lists, texts as lists of character codes, association lists. Texts
--                are compared with a Boolean; `upper` changes the ASCII letters, which are the only
--                ones in the texts that the source compares.
--   Async        how JavaScript runs asynchronous actions. `Proc` is an action as a tree, `Act` its
--                `async`/`try`/`catch`/`finally` notation, `Turn` one turn of the event loop and
--                `Reach` any number of them: requests are answered in any order, with any reply,
--                and other actions start in between. `Runs.execute` runs one action to its end;
--                what the rest of the program does meanwhile is any function on the store. No fuel
--                is needed: an action is a finite tree. `Schedules` plays a run in
--                a given order against a server that answers by what was asked. `Flags`,
--                `Invariants`, `Requests` and `Rules` say how to prove things about actions.
--   Notices      toasts, and a store together with the signed-in user and the toasts shown.
--   Errors       frontend/src/lib/errors.ts: codes (`Errors.Codes`), what is thrown, extracting an
--                `AppError`.
--   Auth         `User` is the user that the stores read, `Client` the state of the authentication
--                store, `localStorage` and the refresh queue together, `Store` the actions of
--                frontend/src/shared/stores/authStore.ts, `Interceptor` the rejection handler of
--                frontend/src/lib/axios.ts, and `Events` what may start them. A request sent again
--                is an outcome of the handler. `Forms` are the schemas and utils.ts of
--                frontend/src/shared/modules/auth, and what its SignUpPage.tsx submits; `Pages`
--                says where the other pages there go.
--   Wallet       frontend/src/client/modules/wallet: `Payment` is the hook useJazzCashPayment.ts
--                over the payment slice of store/index.ts, one function per callback,
--                `Payment.Steps` what may happen to it: clicks, seconds, timeouts, replies in any
--                order, leaving the page. `Store` is the rest of store/index.ts: balance, history,
--                and the form with its keys. `TopUp` is TopUpPage.tsx, `History` what its
--                transactionHelpers.tsx, walletHelpers.ts and TransactionHistory.tsx compute.
--   Transport    frontend/src/client/modules/transport: `Data` is validators.ts, `Stops` is
--                utils.ts, `State` the state of store.ts and the requests of api.ts, `Store` and
--                `Booking` the actions of store.ts, each under its own name in snake case, and
--                `Page` what the pages may start. `Grid` and `Card` are RouteGrid.tsx and
--                RouteCard.tsx of components, `Holds` is hooks.ts with what TransportPage.tsx and
--                TicketsPage.tsx compute, `Details` PassengerDetailsPage.tsx and, in `Details.Modal`,
--                BookingConfirmationModal.tsx. `OldCard` is
--                TransportBookingCard.tsx, which no page shows, and `Panels` what the smaller
--                components and BookingConfirmationPage.tsx compute.
--                `SummaryTile` is TripSummaryTile.tsx of frontend/src/client/components.
--   Admin        `Trips` is frontend/src/admin/modules/trips: store.ts, with the types and requests
--                of types.ts and service.ts. `ask` is what its changes of trips have in common.
--                `Selection` is its pages/TripsPage.tsx, `TripForm` its TripCreateForm.tsx and
--                schema.ts. `Users` and `Gateway` are the stores of users and
--                gateway-transactions, `Users.Page` is UsersPage.tsx, `Ledger` and `Tickets` are
--                the pages of transactions and tickets with their services, `Gateway.Page`,
--                `AuditLogs` and `UserForm` are GatewayTransactionsPage.tsx, AuditLogModal.tsx and
--                UserFormModal.tsx, `Settings` and `System` are the modules settings and system,
--                `History` is TicketsHistory.tsx of the module history, `Weeks` is
--                frontend/src/admin/shared/utils/weekHelpers.ts, and `Paging` is
--                PaginationControl.tsx of admin/shared/components with
--                frontend/src/shared/hooks/useDebounce.ts.
--   Routes       the routes of frontend/src/App.tsx with their guards; `Menu` is the menu of
--                frontend/src/admin/layout/AdminLayout.tsx.
--
-- `addSelection` is split where its source has blocks: `add_selection` parses the selection,
-- `select_on` has found the trip, `hold_selection` is the `try`, `hold_and_store` what happens
-- after the checks, `hold_failed` the `catch`. The two buttons of the toast that `hold_failed`
-- shows are `release_all_holds` and `keep_outbound`. The texts of the console are not modelled.
--
-- `verifyAndLogin` and `login` share `keep_tokens`, what both do with the server's answer; `rotate`
-- is the `try` of `refreshSession`. `on_error` is the rejection handler, `try_refresh` its `try`
-- and `catch`, `give_up` what follows them.
--
-- `History` says what a rendering, an effect and a reply do to a component; React, as far as its
-- documentation promises, is a relation there: it renders at any time, runs an effect at any time
-- after a rendering that has changed one of its dependencies, and compares objects by identity.
--
-- Parameters: whether a text is a UUID or an e-mail address (the library zod), how locations are
-- compared with routes (react-router), the moment that a text of a date stands for, by how much the
-- browser's clocks are ahead and how JavaScript reads them, how a number is written, random keys,
-- the replies of the server, and what other parts of the program do to a store while an action
-- waits.
--
-- Dates are numbers: milliseconds where moments are compared, days and milliseconds in `Weeks`
-- (every day has 24 hours there), minutes of a zone's clock in `TripForm` (a browser's clocks may be put
-- forward and back, by whole minutes), and identities of objects in `History`.
--
-- Not modelled: rendering, how dates are written (date-fns-tz), CSS classes, files that are
-- downloaded, and the numbers of JavaScript beyond natural numbers: counts, prices and sequence
-- numbers are never negative or fractional.
mod Common
pub mod Errors
pub mod Async
pub mod Notices
pub mod Auth
pub mod Transport
pub mod Wallet
pub mod Admin
pub mod Routes
