-- ===== src/Reactor.antt =====
-- src/Reactor and src/Socket/Epoll: channels, the pollers, the loop and its timers.
pub mod Channel
pub mod Epoll
pub mod Poll
pub mod TimerQueue
pub mod EventLoop
pub mod ThreadPool
pub mod LoopThread
mod Tests
