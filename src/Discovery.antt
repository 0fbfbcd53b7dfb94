-- ===== src/Discovery.antt =====
-- src/Discovery: the statuses of a discovery, and its polling.
pub mod Polling
mod Tests
use bright_cli.Prelude.{Bool, true, false, Text, codes, List}
use bright_cli.Scan.Polling.{PollingConfig}
use bright_cli.Discovery.Polling.{JobRound, JobTrace, poll_jobs}

pub data DiscoveryStatus : Type 0 where
  running pending stopped failed done disrupted scheduled queued : DiscoveryStatus

-- `isFinished`
unfoldable pub discovery_finished : DiscoveryStatus → Bool
discovery_finished done = true
discovery_finished stopped = true
discovery_finished disrupted = true
discovery_finished failed = true
discovery_finished _ = false

-- The line that `handleDiscoveryStatus` logs.
unfoldable pub discovery_message : DiscoveryStatus → Text
discovery_message running = codes "Discovery is running."
discovery_message pending = codes "Discovery is pending."
discovery_message scheduled = codes "Discovery is scheduled."
discovery_message queued = codes "Discovery is queued."
discovery_message done = codes "Discovery has been completed."
discovery_message stopped = codes "Discovery has been stopped."
discovery_message disrupted = codes "Discovery has been disrupted."
discovery_message failed = codes "Discovery has failed."

-- `DiscoveryPolling.start`, on a new poller
unfoldable pub poll_discovery :
    PollingConfig → List (JobRound DiscoveryStatus) → JobTrace DiscoveryStatus
unfolding discovery_finished
poll_discovery = poll_jobs discovery_finished
