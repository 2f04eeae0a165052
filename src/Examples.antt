-- ===== src/Examples.antt =====
-- Tests on concrete values, and each theorem at an input that meets its hypotheses.
mod Data
mod Sessions
mod Times
mod Profiles
mod Program
mod Machine
mod Models
mod Tunnels
