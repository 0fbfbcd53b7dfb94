-- ===== src/EntryPoint.antt =====
-- src/EntryPoint/HostUpdateJobStatusPolling.ts: the statuses of a host update, and its polling,
-- which runs as that of a discovery does.
pub mod Pages
mod Tests
use bright_cli.Prelude.{Bool, true, false, Text, codes, List}
use bright_cli.Scan.Polling.{PollingConfig}
use bright_cli.Discovery.Polling.{JobRound, JobTrace, poll_jobs}

pub data JobStatus : Type 0 where
  pending processing completed failed : JobStatus

-- `isFinished`
unfoldable pub job_finished : JobStatus → Bool
job_finished completed = true
job_finished failed = true
job_finished _ = false

-- The line that `handleJobStatus` logs.
unfoldable pub job_message : JobStatus → Text
job_message pending = codes "Host update job is pending."
job_message processing = codes "Host update job is processing."
job_message completed = codes "Host update job has been completed."
job_message failed = codes "Host update job has failed."

-- `HostUpdateJobStatusPolling.start`, on a new poller
unfoldable pub poll_host_update : PollingConfig → List (JobRound JobStatus) → JobTrace JobStatus
unfolding job_finished
poll_host_update = poll_jobs job_finished
