-- ===== src/Gym.antt =====
-- gimnasio/services.py: dates, the life of a membership, access to the gym and bookings of classes.
mod Tests
pub mod Dates
pub mod Memberships
pub mod Access
pub mod Days
pub mod Months
pub mod Renewal
pub mod Pauses
pub mod Life
pub mod AccessControl
pub mod Classes
pub mod Capacity
