-- ===== src/Lib.antt =====
-- zeroone is a control plane for an Xray proxy: one JSON configuration, an HTTP panel whose handlers
-- change it, and background loops that read counters and health checks and change it too. This
-- library models the configuration and the loops that decide something.
--
-- Parts, and how they interact:
--   * Stack is internal/stack. Stack/Defs has the blocks of `Config` (config.go), field by field;
--     Stack/Effective the `Effective…` readers, which apply the defaults; Stack/Text the parts of
--     Go's strings, strconv and net in use, with `ParseHHMM`; Stack/Rules the rules that `Validate`
--     shares, and Stack/Validate `Validate` itself, a function for each loop and block. Stack/Mutate
--     has the methods of mutate.go, Stack/Session the calls of them as data, in any order.
--     Stack/Valid says what `Validate` ensures.
--   * Failover is internal/failover/state.go: `CurrentMode`, `DesiredMode`, `Decide` and `ApplyMode`
--     over the health checks of internal/tunnel/check.go. The manager calls `Decide` once a tick,
--     applies the effective mode and keeps the state; Failover/Ticks models a row of such ticks, and
--     Failover/Manager the whole tick (manager.go, history.go) with the file and what Xray runs.
--   * Usage is internal/usage: `SyncUsers` and `ResetUsers` (usage.go), `ApplyPeriodResets` (reset.go),
--     whose deadlines and counters Usage/Deadlines and Usage/Rolled follow.
--   * Enforce is internal/enforce/quota.go: `PlanQuota` reads the configuration and the counters,
--     and `ApplyQuotaPlan` calls `SetUserEnabled` of mutate.go.
--     Enforce/Sessions is `PlanSessionLimits` of internal/enforce/sessions.go.
--   * Metrics is internal/metrics/ringbuffer.go: `Append` and `Snapshot` of a ring of samples.
--   * Presence is the tracker of internal/presence/presence.go: `Touch` on its entries.
--   * Xray is internal/xray/generate.go: Xray/Inbounds, Xray/Outbounds and Xray/Rules have its functions
--     on JSON objects (Prelude/Json), Xray/Generate puts them together. Xray/Clients, Xray/Ports and
--     Xray/Routes say who connects where, on which port, and where the rules lead.
--   * Links is internal/links/links.go: the links that a user's apps read. Links/Reach compares their
--     addresses with the inbounds.
--   * Plugins is internal/snispoof/config.go, the command lines of the sni_spoof plugin's processes, and
--     internal/relay, the relay's file (config.go) and, in Plugins/Child and Plugins/Wanted, the
--     supervisor's loop for its process (supervisor.go, state.go); Plugins/Lines splits its log.
--   * Bandwidth is internal/bandwidth/plan.go: the limits, the nft script and the tc commands.
--   * Auth is internal/auth: the session tokens of session.go and the bearer tokens of tokens.go.
--     Stack/Tokens has the subscription tokens of internal/stack/subtoken.go.
--   * Api is internal/api: Api/Gate is `tokenAuth`; Api/Store the configuration in memory and in the
--     file, with `Load` and `Save`; Api/Handlers, Api/Users and Api/Actions the handlers that change
--     the configuration (server.go, admins.go, tokens.go, users_periods.go) and the requests as data;
--     Api/Settings those for the notifications, the sources of Xray updates and the return to a snapshot
--     (notifications.go, xray_install.go, observability.go, internal/snapshots/snapshots.go). Api/Safe,
--     Api/Locked, Api/Reopened and Api/Agree say what they leave.
--     Api/Plugins has those of the relay and the SNI spoof (relay.go, snispoof.go), Api/Undone,
--     Api/SiteNames and Api/Tidy what they leave.
--   * XrayInstall is internal/xrayinstall. XrayInstall/Versions is versions.go; XrayInstall/Jobs the slot
--     for a job (run.go, progress.go) with a step relation, whose rows XrayInstall/Overlap looks at;
--     XrayInstall/Commit the tree of versions (swap.go, state.go, resolve.go), XrayInstall/Digest
--     verify.go, and XrayInstall/Run a job from its request to its end.
--   * XrayProcess is internal/xrayproc/supervisor.go: the loop around the process, with its waits.
--   * Subscription is internal/subscription: Subscription/Encode and Subscription/Clash have the formats
--     (encode.go), Subscription/Headers the headers, Subscription/Names and Subscription/Serve server.go.
--     Subscription/First follows a subscription to its inbound.
--   * Tests has a sample configuration and applies each theorem to concrete inputs.
--   * Prelude passes on library names and has the shared helpers.
--
-- How code becomes definitions:
--   * A struct is a record with the fields in snake case, a method that changes its receiver answers
--     with the new value and the error, also where it fails: several operations change the
--     configuration before an error is found. An error is a constructor without its message.
--   * `int` and `int64` are the ℤ of Prelude/Int; `+ℤ` and `-ℤ` wrap around at 64 bits. A map is a
--     list of pairs whose first entry counts. A text is a string of code points, and times are unix
--     seconds.
--   * Parameters stand for code outside the repository: `is_cidr` for the success of `net.ParseCIDR`,
--     `to_lower` for `strings.ToLower`, `Calendar` for the time zone's calendar, and `fresh` for what
--     an operation draws at random; `sign`, `encode`, `decode`, `hash` and `verify` for the cryptography
--     of internal/auth, `ip_is_loopback` for `net.ParseIP`, `later` for the clock, `Texts` for the
--     encodings of a link, `url_path` and `parse_url` for `url.Parse`, `Encoders` for the encodings of a
--     subscription, `equal_fold` for `strings.EqualFold`, and `Tools` for the digests of files and what a
--     binary says of itself.
--   * Loops are structural recursion. The search of `NextBandwidthPort` has 1000 rounds, the ports
--     from 21000 to 21999 of the source's loop.
--   * A request comes decoded, and with what its handler draws from outside: the file of counters, the
--     health checks, whether an apply succeeds. Writing the configuration file succeeds.
--   * `commitInstall` makes its system calls in their order, and `Faults` says which of them fail.
--
-- Not modelled: JSON files, the read-only HTTP handlers, the processes, firewall and routing commands,
-- the supervisor of the SNI spoof, the probes and the status of the relay's, the downloads of the
-- installer, the metrics collector, the log readers and the web panel.
pub mod Prelude
pub mod Stack
pub mod Failover
pub mod Usage
pub mod Enforce
pub mod Metrics
pub mod Presence
pub mod Xray
pub mod Auth
pub mod Api
pub mod Links
pub mod Plugins
pub mod Bandwidth
pub mod XrayInstall
pub mod XrayProcess
pub mod Subscription
pub mod Tests
