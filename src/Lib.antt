-- ===== src/Lib.antt =====
-- Vertxing: direct calls, meetings with a waiting room, accounts with roles, and sign-in.
--
-- The program is a NestJS API (apps/api), a Next.js client (apps/web) and the contracts that they
-- share (packages/shared). Modelled are the parts of the API that hold its rules, and of the
-- client's state the call, the requests and the ringtone:
--
-- * Redis/ is apps/api/src/infrastructure/redis/redis.service.ts. `Redis.Service` has its methods,
--   each the commands that it sends; `Redis.Prog` is code as a tree of commands, so that other
--   requests can run at each await; `Redis.Dataset` is what a server holds and what its
--   documentation says of each command, with the two Lua scripts of the service as its atomic steps;
--   `Redis.Client` is the server as an interface, with the proof that the model stands for any
--   server that answers as documented. Keys is about the names of the keys.
-- * Call/ is apps/api/src/modules/realtime/call.service.ts: Types, Presence (markOnline,
--   markOffline, isOnline), Placing (invite, addParticipant, accept), Ending (decline, cancel,
--   hangup, timeout, drop). UsersService, PushService and MediaService are the parameter `Services`.
--   Race runs requests as threads whose commands interleave, with seconds passing in between.
-- * WaitingRoom is apps/api/src/modules/meetings/waiting-room.service.ts.
-- * Meetings/ is meetings.service.ts and meetings.repository.ts of apps/api/src/modules/meetings:
--   World is the tables of meetings and participants beside a Redis dataset, and code that talks to
--   both; Backend the two servers as an interface, as for Redis; Service has join, cancel, end,
--   delete, removeParticipant and the checks for the gateway, Events the room webhooks, Upkeep
--   getByRoomName and reconcile, Entry what it is to enter. What LiveKit is asked to do to its rooms has no effect here.
-- * Gateway/ is apps/api/src/modules/realtime/events.gateway.ts over Call, WaitingRoom and Meetings:
--   Gateway has what a socket carries, the messages and the helpers; Connection the handshake and the
--   disconnect; Waiting and Calls the handlers; Handler the events; Delivery the wire between the
--   gateway and the screen of Web. The other modules compose them.
-- * Web/Screen is the call on a user's screen, `CallProvider` of apps/web/lib/call-context.tsx,
--   with what it asks of the ringtone, and not what then sounds; Web/Ringtone the player of apps/web/lib/ringtone.ts, Web/CustomRingtone the user's own
--   ringtone there, Web/Client the requests of apps/web/lib/api-client.ts with apps/web/lib/session.ts.
-- * Permission is packages/shared/src/types/permission.types.ts.
-- * Users/ is users.service.ts, user.mapper.ts and users.repository.ts of
--   apps/api/src/modules/users: Service has the profile and the call gates, Manage updateUser and
--   deleteUser, Bulk bulkUpdate. Database/ is the tables that they read and write: `Database.Tables` has what Prisma
--   documents of each query, `Database.Query` code as a tree of queries that an exception ends, and
--   `Database.Client` the database as an interface, as for Redis. A request to these services and to
--   the meetings runs whole: interleavings of their queries are not modelled.
-- * Auth/ is apps/api/src/modules/auth: Token is token.service.ts, with the JWT library as the
--   parameter `Jwt`, SignIn auth.service.ts, with bcrypt as a parameter.
-- * License is apps/api/src/modules/license/license.service.ts over a list of licences. Roles is
--   apps/api/src/modules/roles/roles.service.ts: what a role may hold, and in Store the table.
-- * Push is apps/api/src/modules/push/push.service.ts and push.repository.ts, with the push services
--   as a parameter.
-- * Guards is permission.guard.ts and super-admin.guard.ts of apps/api/src/common/guards, Errors
--   apps/api/src/common/filters/all-exceptions.filter.ts. Http has the exceptions of NestJS as values.
-- * Prelude has the shared names, and in Ascii the methods of JavaScript's strings that the services
--   use, on ASCII texts.
--
-- Random ids (a call's UUID, a token's jti) are arguments of the functions that draw them. Time is
-- counted in whole seconds and passes between commands of Redis only. Three definitions take
-- fuel: the loop for a free key of a role, which gets one round more than there are roles; the decimal
-- form of a number, which gets more than the number; and `request` of the client, which calls itself
-- for the refresh and for the retry, and for which two calls inside one another are enough. An interleaving is a list of turns.
--
-- Not modelled: creating, listing, renaming and rescheduling meetings, minting licence keys, the call
-- directory and the list of accounts, the configuration, and of the client the sign-in state, the
-- dialogs, the toasts, the ring duration and the phases of the meeting page; and, being input and
-- output only, the rest of the client's pages and the LiveKit, web-push and FCM calls.
pub mod Prelude
pub mod Redis
pub mod Keys
pub mod Call
pub mod Permission
pub mod WaitingRoom
pub mod Http
pub mod Errors
pub mod Database
pub mod Meetings
pub mod License
pub mod Push
pub mod Roles
pub mod Users
pub mod Auth
pub mod Gateway
pub mod Guards
pub mod Web
