-- ===== src/Schema.antt =====
-- The tables of database.js as lists of rows, and what a request leaves in the sockets and timers.
-- Phones and row ids are numbers, compared and never computed with; a coordinate is a whole number of
-- microdegrees; a JSON column (route, rejected_drivers) is the list that it spells.
use Prim.Native.String.{String}
use oncall_backend_private.Prelude.{ℕ, Option, List, []}

-- Signed numbers, for coordinates: `negsuc n` is -(n + 1).
pub data ℤ : Type 0 where
  pos : ℕ → ℤ
  negsuc : ℕ → ℤ

-- The texts of `trips.status`; `unknown` is any other text, which a request may carry.
pub data Status : Type 0 where
  waiting_driver accepted arrived in_progress completed cancelled no_driver unknown : Status

pub data PaymentMethod : Type 0 where
  cash wallet other_method : PaymentMethod

pub data PaymentStatus : Type 0 where
  pending paid failed : PaymentStatus

pub record Point : Type 0 where
  pub lat : ℤ
  pub lng : ℤ
  pub time : ℕ

pub record Trip : Type 0 where
  pub id : ℕ
  pub user_phone : Option ℕ
  pub driver_id : Option ℕ
  pub driver_name : Option String
  pub pickup : String
  pub destination : String
  pub pickup_lat : Option ℤ
  pub pickup_lng : Option ℤ
  pub dest_lat : Option ℤ
  pub dest_lng : Option ℤ
  pub driver_lat : Option ℤ
  pub driver_lng : Option ℤ
  pub status : Status
  pub rejected_drivers : List ℕ
  pub assigned_driver_id : Option ℕ
  pub request_sent_at : Option ℕ
  pub estimated_fare : Option ℕ
  pub final_fare : Option ℕ
  pub payment_method : PaymentMethod
  pub payment_status : PaymentStatus
  pub rating : Option ℕ
  pub rating_comment : Option String
  pub route : List Point
  pub start_time : Option ℕ
  pub total_distance : ℕ
  pub duration_minutes : ℕ
  pub driver_rating : Option ℕ
  pub driver_rating_comment : Option String
  pub passenger_rating : Option ℕ

pub data Presence : Type 0 where
  online offline busy : Presence

pub data Approval : Type 0 where
  awaiting approved rejected suspended : Approval

pub record Driver : Type 0 where
  pub id : ℕ
  pub phone : ℕ
  pub name : String
  pub status : Presence
  pub approval_status : Approval
  pub lat : ℤ
  pub lng : ℤ
  pub rating_tenths : ℕ
  pub total_ratings : ℕ

pub record Taxi : Type 0 where
  pub id : ℕ
  pub driver_id : Option ℕ
  pub lat : Option ℤ
  pub lng : Option ℤ
  pub status : Presence

-- `users`, whose balance (in fils) is the wallet.
pub record User : Type 0 where
  pub phone : ℕ
  pub balance : ℕ

pub data TransactionType : Type 0 where
  trip_payment cash_payment scooter_payment deposit : TransactionType

pub record Transaction : Type 0 where
  pub phone : ℕ
  pub type : TransactionType
  pub amount : ℕ
  pub balance_before : ℕ
  pub balance_after : ℕ
  pub trip_id : Option ℕ

pub data NoticeType : Type 0 where
  trip_completed rating_received scooter_unlocked wallet_charge : NoticeType

pub record Notice : Type 0 where
  pub phone : ℕ
  pub type : NoticeType
  pub trip_id : Option ℕ

-- What is sent through Socket.IO and the push service.
pub data Emit : Type 0 where
  trip_updated : ℕ → Status → Emit
  trip_accepted : ℕ → ℕ → Emit
  driver_moved : ℕ → ℤ → ℤ → Emit
  trip_request : ℕ → ℕ → Emit
  new_trip : ℕ → Emit
  push_passenger : ℕ → Status → Emit
  push_driver : ℕ → ℕ → Emit

-- A pending 30 s timer of a trip, with the driver that it waits for.
pub record Timer : Type 0 where
  pub trip_id : ℕ
  pub driver_id : ℕ

pub record Db : Type 0 where
  pub trips : List Trip
  pub next_trip : ℕ
  pub drivers : List Driver
  pub taxis : List Taxi
  pub users : List User
  pub transactions : List Transaction
  pub notifications : List Notice
  pub timers : List Timer
  pub emits : List Emit

abbrev pub empty_db : Db
empty_db = record {
  trips = [];
  next_trip = 1;
  drivers = [];
  taxis = [];
  users = [];
  transactions = [];
  notifications = [];
  timers = [];
  emits = [];
}
