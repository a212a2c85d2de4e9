-- ===== src/Lib.antt =====
-- EWU Media: the backend of a media agency, a NestJS monorepo. Users with roles work on cases; an
-- administrator approves, suspends and restores users; each request passes a chain of guards that
-- ask the role-based access control (RBAC) whether a role holds a permission, and with what scope.
--
-- Parts and files:
--   Base        names that all modules share: Boolean tests, lists over native numbers, JavaScript's
--               Map as an association list in insertion order, `split` and `join`, results.
--   Domain      the user row (libs/database/prisma/schema.prisma, the columns that the modelled
--               methods read or write) and the tables of the Prisma client as interfaces.
--   Cache       LruCache of libs/core/src/lib/cache/lru-cache.ts: get, set, delete, clear, keys, size
--               are lru_get, lru_set, lru_delete, clear, keys, size. Date.now() is an argument.
--               Cache.Service is cache.service.ts beside it: an LRU cache in the process before
--               Redis, whose replies may be errors.
--   Rbac        libs/auth/src/lib/rbac. Rbac.Trie is PermissionTrie, Rbac.Entry what RbacService
--               builds from the rows of a role and how it checks scopes, Rbac.Service its methods on
--               the cache: getPermissionsForRole is split at its query into lookup_role and
--               store_role, so that other events can come between; Redis enters by its replies.
--   Guards      libs/auth/src/lib/guards: canActivate of each guard is a function of the metadata of
--               the route, the request and the replies that the guard waits for, into a verdict.
--               Guards.Permissions has parsePermission of libs/auth/src/lib/rbac too.
--   Users       apps/api/src/app/domain/users: Users.Store is what users.repository.ts writes, under
--               the soft-delete extension of libs/database; Users.Status is user-status.service.ts.
--               A method reads in one state of the database and writes in another, since other
--               requests come between its check and its transaction. Users.Roles is about
--               syncUserRoles of users.repository.ts.
--   Auth        libs/auth/src/lib: Auth.Login is validateLoginCredentials of auth.service.ts with the
--               lockout of services/user.service.ts, Auth.Refresh is refresh of auth.service.ts with
--               rotateSession of session/session.repository.ts, Auth.Password its use cases of reset
--               tokens and passwords, Auth.Sessions the limit of sessions, the resolution of a
--               conflict and the logouts, Auth.TwoFactor the count of failed codes in
--               two-factor/two-factor.service.ts, Auth.BackupCodes its backup codes with
--               backup-code.repository.ts, Auth.SecondFactor the setup, deactivation and recovery of
--               the second factor, Auth.TrustedDevices trusted-device.service.ts, Auth.SecondStep
--               login and verifyTwoFactor of auth.service.ts. Auth.Tables has the table of users
--               that they share.
--   Filters     apps/api/src/app/filters/filter-query-builder.service.ts and cases/utils/filter:
--               Filters.Terms has the values and conditions of a request, Filters.Build the clauses
--               that it makes of them, Filters.Query buildCaseWhere, Filters.Meaning what a clause
--               selects, and Filters.Columns what a request asks for on the columns of a case.
--   ScopeFilter libs/core/src/lib/scope: buildScopeFilter and withScope, on the context that the
--               scope resolution guard attaches to a request.
--   SoftDelete  libs/database/src/lib/extensions/soft-delete.extension.ts: how the arguments of an
--               operation are rewritten, and the deletion that becomes an update of three columns.
--   Pagination  libs/shared/src/lib/utils: pagination, cursor-pagination, sort and search.
--   Tests       the theorems at concrete inputs.
--
-- How they interact: the guards call the RBAC service, which holds an LRU cache of the entries of
-- roles; the status service, the login and the use cases of passwords and of the second factor share
-- the user row; the sessions that a suspension ends are those that the JWT guard and the refresh look
-- up and that the login counts.
--
-- Conventions: an exception is an error value or, where the caller cannot tell, `none`; times are
-- milliseconds and ids are numbers; a text is the list of its code units. Numbers in JavaScript are
-- doubles, and the counts, times and ids here stay far below 2^53. The loops of the code run over
-- lists and are structural recursion, but for two with fuel: the reader of cursors in
-- Pagination.Cursors, where one step more than there are rows is proved enough, and the SCAN loop of
-- Cache.Service, where more than the steps that the iteration has left is proved enough.
--
-- Parameters, which stand for code outside of the repository: the tables (Domain, Auth.Refresh,
-- Auth.Tables, Auth.TrustedDevices) with the laws of find, create, update and delete; Redis by its
-- replies and, in Cache.Service.Scan, by its iteration as documented; the test of a RegExp;
-- String.toLowerCase and trim, Number and Date of a text; the tests of a `where` clause on a row
-- (Filters.Columns, SoftDelete); the signing, verification and hashing of tokens; the hashing and
-- comparison of passwords; the secrets and codes of TOTP; random bytes; base64url; Prisma's cursor
-- query.
--
-- Not modelled: controllers, DTOs and their validation, logging, auditing, mails, configuration, the
-- cache of sessions and the building of responses, which have no part in the results stated here;
-- register; the lock of enforceSessionLimit; the channels and streams of the cache service;
-- invitations, throttling, the writes of cases and of saved filters.
pub mod Base
pub mod Domain
pub mod Filters
pub mod Cache
pub mod Rbac
pub mod Users
pub mod Guards
pub mod Auth
pub mod Pagination
pub mod ScopeFilter
pub mod SoftDelete
pub mod Tests
