-- ===== src/Lib.antt =====
-- A model of the user and group management of gumd, and proofs about it.
--
-- gumd is a daemon that keeps the users and groups of a system in the files passwd, shadow, group and
-- gshadow. A request reaches an object of the daemon (src/daemon/core); the object checks it, takes
-- the lock on the files, changes its own fields, has the files rewritten, runs scripts and gives the
-- lock back. The functions that it uses for this are in src/common. Over D-Bus, a request comes from an
-- object of the client library (src/lib) by a connection of the server to the adapter of the daemon's
-- object (src/daemon/dbus), which a service has made for the peer.
--
--   Error        include/gum/common/gum-error.h: the codes, and functions that fail with one
--   StringUtils  src/common/gum-string-utils.c: vectors of strings and separated fields; proofs in
--                StringUtils/Members and StringUtils/Fields
--   Validate     src/common/gum-validate.c, with the patterns of include/gum/common/gum-validate.h;
--                proofs in Validate/Name and Validate/Entry
--   Crypt        src/common/gum-crypt.c; proofs in Crypt/Compare
--   Lock         src/common/gum-lock.c; proofs in Lock/Counting
--   Database     the entries of the four files: the structs of libc
--   File         src/common/gum-file.c: the update of a file by a callback, and the lookups; proofs in
--                File/Update. File/Entries is the loop that the callbacks share; File/Placement
--                compares it with functions on lists, which File/Placement/Distinct is about
--   Home         src/common/gum-file.c: the home directory of a user, as a tree of directories and files
--                without symbolic links; proofs in Home/Copied and Home/Removed
--   Ids          the search for a free id, which groups and users share; proofs in Ids/Free
--   Session      src/daemon/core/gumd-daemon-user.c: ending the sessions of a user
--   World        what all operations share: the lock, the four files, the outcomes of system calls, and
--                the actions that change them. World/Locking, World/Post and World/Frame are the rules
--                by which properties of actions are proved
--   Group        src/daemon/core/gumd-daemon-group.c: the object (Group), its id (Group/Ids), the
--                callbacks (Group/Entries), its fields (Group/Fields), the operations of an object
--                (Group/Operations) and those without one (Group/Membership); proofs in
--                Group/Ids/Free, Group/Membership/Gone, Group/Membership/Balance and, of
--                Group/Operations, Balance, Add, Asked, Delete, Valid, Members and Frame
--   UserTypes    src/common/gum-user-types.c; proofs in UserTypes/Names
--   User         src/daemon/core/gumd-daemon-user.c: the object and its properties (User), its name and
--                id (User/Ids), the callbacks (User/Entries), its fields (User/Fields), the steps of
--                the operations (User/Steps), the operations (User/Operations) and the list of users
--                (User/Listing); proofs in User/Gecos, User/Entries/Locked, User/Listing/Asked,
--                User/Listing/Listed,
--                User/Ids/Free, User/Steps/Balance and, of User/Operations, Balance, Still, Prepared,
--                Add, Asked, Delete, Update and Icon
--   Objects      src/daemon/core/gumd-daemon.c: the tables of objects in use; proofs in Objects/Live
--   Daemon       the rest of that file: requests and signals; proofs in Daemon/Requests and
--                Daemon/Signals
--   Disposable   src/common/gum-disposable.c, with the sources that the main loop has for an object;
--                proofs in Disposable/Tracked and Disposable/Retimed
--   Service      src/daemon/dbus/gumd-dbus-{user,group}-service-adapter.c and
--                gumd-dbus-{user,group}-adapter.c: the table of adapters and the lookups (Service), the
--                requests on an adapter (Service/Requests), and both for the daemon's users and groups
--                (Service/Users, Service/Groups). Service/Uses says what may happen to a service; proofs
--                in Service/Kept, Service/Alive, Service/Made, Service/Cached, Service/There,
--                Service/Null and Service/Requests
--   Server       src/daemon/dbus/gumd-dbus-server-p2p.c: the services of each connection (Server), and
--                gumd-dbus-server-msg-bus.c (Server/MsgBus); proofs in Server/Wired, Server/Cleared
--                and Server/Dangling
--   Client       src/lib/gum-user.c, gum-group.c: the operations that call back (Client), those that wait
--                (Client/Sync), and the functions of a user and a group (Client/Users, Client/Groups);
--                gum-user-service.c: the service of the users (Client/Services); proofs there and in
--                Client/Turns, Client/Rounds, Client/Overlap, Client/Sync and Client/Agreed
--   Scripts      src/common/gum-utils.c: the scripts of a directory; proofs in Scripts/Listed,
--                Scripts/Spawned and Scripts/Ran
--   Configuration  src/common/gum-config.c and, as far as it uses it, gum-dictionary.c: the defaults, the
--                file and the values; a proof in Configuration/Found
--   Common       what the modules share of the libraries, and lemmas on tests, lists and texts
--   Tests        concrete files, systems and strings, and the theorems at them
--
-- A function of the source keeps its name, without the prefixes `gum_…_` and `_`. A string is a list of
-- bytes, and a pointer that may be NULL an option. An operation of an object is an `Action`: from a
-- state, which is the object and the world, to a result and a new state. It reads how its system calls
-- turn out from the record `Os`, by the number of the calls so far, so that each call may succeed or
-- fail.
--
-- The loop that looks for a free id runs on fuel: one round for each id of the range, and two more,
-- which is enough if the range ends below the largest id. At the largest id the counter of the
-- source wraps around, and its loop may run for ever.
--
-- A user operation runs the operations on groups inside its own: `on_object` gives them the world, and the
-- lock is counted. The daemon keeps its objects at addresses, with a count of references; a
-- disposable object is moved by the steps of a relation, in which clients and the main loop take
-- turns in any order. So is a service on a connection, which is one for users and for groups: the
-- record `Kind` has what differs. A client's object has its calls under way and its idle sources in
-- its state, and a reply or the main loop takes any of them.
--
-- Parameters, because their code is not here: crypt(3), g_strsplit and g_strjoinv, the MD5 sum, the
-- calls of logind, the directories that g_mkdir_with_parents makes above the one it is given, the
-- mode that chown(2) leaves, the ids of new sources of the main loop, GLib's paths, directories, sequences and
-- key files, strtol and strtoul, the time, and the outcomes of the system calls on files and
-- directories, of lckpwdf and of /dev/urandom; and of D-Bus, whether an object can be exported or a
-- proxy made, and how a call is answered. Files are lists of entries: what a line looks like is
-- libc's concern. What one update writes is read again as it was written, but for a NULL field,
-- which is read as an empty one. A userinfo file holds an icon or none; the scripts that are run are
-- recorded, and taken to leave everything else alone.
--
-- The parts are built without ENABLE_DEBUG. World's record `Config` has the values of the
-- configuration that the operations read; the table that they come from is in Configuration.
--
-- Not modelled: symbolic links in a skeleton for home directories, which the source copies as links and
-- then follows when it sets modes and owners; the rest of the dictionaries (src/common/gum-dictionary.c); the conversion of errors
-- for D-Bus; GObject's notifications and properties as such, with their copies in adapters and
-- proxies; the sockets of the servers and the process ids of peers; the main program
-- (src/daemon/main.c); what a callback is given for a list of users, and the proxies by threads
-- (src/lib/gum-user-service.c, gum-group-service.c); and the tool (src/utils).
mod Common
mod Tests
pub mod Home
pub mod Error
pub mod StringUtils
pub mod Validate
pub mod Database
pub mod File
pub mod Lock
pub mod UserTypes
pub mod Crypt
pub mod Ids
pub mod Session
pub mod Scripts
pub mod Service
pub mod Server
pub mod Client
pub mod Configuration
pub mod Disposable
pub mod Objects
pub mod Daemon
pub mod World
pub mod Group
pub mod User
