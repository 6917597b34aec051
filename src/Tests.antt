-- ===== src/Tests.antt =====
-- Runs of the definitions at concrete inputs, and the main theorems applied there.
mod Samples
mod Draft
mod ReportPath
mod Evidence
mod Editor
mod Client
mod Format
mod Form
mod Screens
mod Investigation
